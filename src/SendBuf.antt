-- ===== src/SendBuf.antt =====
-- `SendBuf` of src/lib.rs: the chunks that wait to be sent or acknowledged. A method returns its
-- result beside the new state; `none` is a panic.
pub mod Window
pub mod Ack
pub mod Push
pub mod Pieces
pub mod Cut
pub mod Write
pub mod Blocks
pub mod Emit
pub mod Emitted
pub mod Drain
pub mod Round
mod Tests
use dmludp.Prelude.{
  ℕ, ◌+◌, ◌==◌, Bool, true, false, ◌&&◌, ◌||◌, if◌then◌else◌, Option, some, none, List, [], ◌∷◌,
  ◌++◌, length, take, drop, ltb, leb, min, add64, sub64, slice_to, copy_at, not, ◌>>=◌, chunks,
}
use dmludp.Prelude.Maps.{tree_insert, update, values}
use dmludp.Error.{Result, ok, err, stream_stopped}
use dmludp.RangeBuf.{
  RangeBuf, from as range_from, off as range_off, len as range_len, is_empty as range_is_empty,
}

abbrev pub send_buffer_size : ℕ
send_buffer_size = 1024

-- `data` of the source is `chunks` here.
pub record SendBuf : Type 0 where
  pub chunks : List RangeBuf
  pub pos : ℕ
  pub off : ℕ
  pub len : ℕ
  pub max_data : ℕ
  pub error : Option ℕ
  pub used_length : ℕ
  pub offset_recv : List (ℕ × Bool)
  pub removed : ℕ
  pub sent : ℕ

unfoldable pub new : ℕ → SendBuf
new max_data = record {
  chunks = [];
  pos = 0;
  off = 0;
  len = 0;
  max_data = max_data;
  error = none;
  used_length = 0;
  offset_recv = [];
  removed = 0;
  sent = 0;
}

abbrev pub is_nil {ℓ} : {A : Type ℓ} → List A → Bool
is_nil [] = true
is_nil (x ∷ xs) = false

-- The bytes of vectors that are in memory together: their number cannot pass the range of usize.
abbrev pub total : List RangeBuf → ℕ
total [] = 0
total (b ∷ bs) = length b.bytes + total bs

-- `SendBuf::len`, not to be confused with the field
unfoldable pub len : SendBuf → ℕ
len s = total s.chunks

unfoldable pub is_empty : SendBuf → Bool
is_empty s = is_nil s.chunks

unfoldable pub ready : SendBuf → Bool
ready s = not (is_nil s.chunks)

unfoldable pub off_back : SendBuf → ℕ
off_back s = s.off

-- `SendBuf::max_off`
unfoldable pub max_off : SendBuf → ℕ
max_off s = s.max_data

unfoldable pub is_stopped : SendBuf → Bool
is_stopped s = elim s.error [ some e ↦ true | none ↦ false ]

unfoldable pub update_max_data : SendBuf → ℕ → SendBuf
update_max_data s max_data = record s { max_data = max_data }

unfoldable pub cap : SendBuf → Option (Result ℕ × SendBuf)
unfolding len
cap s = elim s.error [
  | some e ↦ some (err (stream_stopped e), s)
  | none ↦ do
    let s' = record s { used_length = len s }
    left ← sub64 s'.max_data s'.used_length
    some (ok left, s')
]

-- `self.data.retain(|_| *iter.next().unwrap())`
unfoldable pub retain : List RangeBuf → List Bool → Option (List RangeBuf)
retain [] flags = some []
retain (b ∷ bs) [] = none
retain (b ∷ bs) (f ∷ fs) = do rest ← retain bs fs; some (if f then b ∷ rest else rest)

-- `self.offset_recv.retain(|_, v| v == true)`
unfoldable pub retain_true : List (ℕ × Bool) → List (ℕ × Bool)
retain_true [] = []
retain_true ((k, v) ∷ m) = let rest = retain_true m in if v then (k, v) ∷ rest else rest

unfoldable pub recv_and_drop : SendBuf → ℕ → Option SendBuf
unfolding retain retain_true
recv_and_drop s max_ack = if is_nil s.chunks then some s else (do
  kept ← retain s.chunks (values s.offset_recv)
  some (record s { chunks = kept; offset_recv = retain_true s.offset_recv }))

unfoldable pub ack_and_drop : SendBuf → ℕ → SendBuf
ack_and_drop s offset = record s { offset_recv = update offset false s.offset_recv }

-- what `write` does with each piece of the data that it takes
unfoldable pub push_chunk : SendBuf → List ℕ → Option SendBuf
push_chunk s piece = do
  off ← add64 s.off (length piece)
  len ← add64 s.len (length piece)
  used_length ← add64 s.used_length (length piece)
  some (record s {
    chunks = s.chunks ++ (range_from piece s.off ∷ []);
    off = off;
    len = len;
    used_length = used_length;
    offset_recv = tree_insert s.off true s.offset_recv;
  })

-- the `for chunk in …` of `write`; the number counts the bytes written
unfoldable pub write_loop : SendBuf → List (List ℕ) → ℕ → Option (ℕ × SendBuf)
write_loop s [] n = some (n, s)
write_loop s (c ∷ cs) n = do s' ← push_chunk s c; n' ← add64 n (length c); write_loop s' cs n'

-- `write` from `let mut len = 0` on
unfoldable pub write_data : SendBuf → List ℕ → ℕ → Option (ℕ × SendBuf)
write_data s d off_len =
    if ltb 0 off_len
    then if ltb off_len (length d)
      then (do
        s' ← push_chunk s (take off_len d)
        write_loop s' (chunks send_buffer_size (drop off_len d)) off_len)
      else (do s' ← push_chunk s d; some (length d, s'))
    else write_loop s (chunks send_buffer_size (drop off_len d)) 0

-- `write` behind the drop: the fields that it resets
unfoldable pub begin_window : SendBuf → ℕ → SendBuf
unfolding len
begin_window s window_size = record s {
  max_data = window_size;
  removed = 0;
  sent = 0;
  len = len s;
  used_length = len s;
}

-- `write` from `if data.is_empty()` on
unfoldable pub write_rest : SendBuf → List ℕ → ℕ → Option (Result ℕ × SendBuf)
write_rest s d off_len =
    if is_nil d
    then some (ok (length d), s)
    else (do (n, s') ← write_data s d off_len; some (ok n, s'))

-- `write` from the call of `cap` on
unfoldable pub write_capped : SendBuf → List ℕ → ℕ → Option (Result ℕ × SendBuf)
unfolding cap write_rest
write_capped s d off_len = do
  (capacity, s') ← cap s
  elim capacity [
    | err e ↦ some (err e, s')
    | ok c ↦ write_rest s' (if ltb c (length d) then take c d else d) off_len
  ]

unfoldable pub write : SendBuf → List ℕ → ℕ → ℕ → ℕ → Option (Result ℕ × SendBuf)
unfolding recv_and_drop begin_window write_capped
write s d window_size off_len max_ack = do
  s1 ← recv_and_drop s max_ack
  let s2 = begin_window s1 window_size
  if leb window_size s2.len
      then some (ok 0, s2)
      else if is_nil d
      then some (ok 0, s2)
      else write_capped s2 d off_len

-- the loop of `off_front` over the chunks from `pos` on; `last` is `self.off`
unfoldable pub front_from : List RangeBuf → ℕ → Option ℕ
front_from [] last = some last
front_from (b ∷ bs) last =
    let rest = front_from bs last in
    do empty ← range_is_empty b; if empty then rest else range_off b

unfoldable pub off_front : SendBuf → Option ℕ
unfolding front_from
off_front s = front_from (drop s.pos s.chunks) s.off

-- The loop of `emit` over the chunks from `pos` on: `self.data.get_mut(self.pos)` is the head of the
-- list. The result is the state, the output buffer and `out_len`.
unfoldable pub emit_loop : SendBuf → List RangeBuf → List ℕ → ℕ → Option (SendBuf × List ℕ × ℕ)
emit_loop s [] out out_len = some (s, out, out_len)
emit_loop s (b ∷ rest) out out_len =
    if leb send_buffer_size out_len && ready s
    then (do
      empty ← range_is_empty b
      pos ← add64 s.pos 1
      if empty then emit_loop (record s { pos = pos }) rest out out_len else (do
        l ← range_len b
        let buf_len = min l out_len
        let partial = leb buf_len l
        src ← slice_to b.bytes buf_len
        out' ← copy_at out 0 src
        len ← sub64 s.len buf_len
        used_length ← sub64 s.used_length buf_len
        let s' = record s { len = len; used_length = used_length; pos = pos }
        if partial then some (s', out', buf_len) else emit_loop s' rest out' buf_len))
    else some (s, out, out_len)

-- the two tests at the end of `emit`, and the flag that they set
unfoldable pub wrap_pos : SendBuf → Bool × SendBuf
wrap_pos s =
    let full = leb s.max_data s.sent in
    let s' = if full then record s { pos = 0 } else s in
    let at_end = s'.pos == length s'.chunks in
    (full || at_end, if at_end then record s' { pos = 0 } else s')

-- `Ok((out_len, out_off, stop))`, the new state, and the output buffer
unfoldable pub emit : SendBuf → List ℕ → Option (Result (ℕ × ℕ × Bool) × SendBuf × List ℕ)
emit s out = do
  out_off ← off_front s
  (s1, out', out_len) ← emit_loop s (drop s.pos s.chunks) out (length out)
  sent ← add64 s1.sent out_len
  let (stop, s2) = wrap_pos (record s1 { sent = sent })
  some (ok (out_len, out_off, stop), s2, out')

-- `SendBuf::reset`
unfoldable pub reset : SendBuf → Option (Result ℕ × SendBuf)
unfolding off_front off_back
reset s = do
  unsent_off ← off_front s
  unsent_len ← sub64 (off_back s) unsent_off
  some (ok unsent_len, record s { chunks = []; pos = 0; len = 0; off = unsent_off })

unfoldable pub clear : SendBuf → SendBuf
clear s = record s { chunks = []; pos = 0; off = 0 }
