-- ===== src/RecvBuf.antt =====
-- `RecvBuf` of src/lib.rs: the chunks that have arrived and were not yet read. A method returns its
-- result beside the new state; `none` is a panic.
pub mod Insert
pub mod Read
pub mod Partial
pub mod Reset
mod Tests
use dmludp.Prelude.{
  ℕ, ◌-◌, ◌==◌, Bool, not, if◌then◌else◌, Option, some, none, List, [], ◌∷◌, length, ltb, min,
  add64, sub64, slice_to, copy_at, ◌>>=◌,
}
use dmludp.Prelude.Maps.{tree_insert, last_key}
use dmludp.Error.{Result, ok, err, done, final_size}
use dmludp.RangeBuf.{
  RangeBuf, from as range_from, len as range_len, max_off as range_max_off, consume,
}
use dmludp.SendBuf.{is_nil}

-- `data` of the source, a `BTreeMap` from final offsets to chunks, is `chunks` here.
pub record RecvBuf : Type 0 where
  pub chunks : List (ℕ × RangeBuf)
  pub off : ℕ
  pub len : ℕ
  pub last_maxoff : ℕ
  pub max_recv_off : ℕ

unfoldable pub new : RecvBuf
new = record { chunks = []; off = 0; len = 0; last_maxoff = 0; max_recv_off = 0 }

unfoldable pub ready : RecvBuf → Bool
ready r = not (is_nil r.chunks)

unfoldable pub max_ack : RecvBuf → ℕ
max_ack r = r.max_recv_off

unfoldable pub off_front : RecvBuf → ℕ
off_front r = r.off

-- the test on the last key, and the mark that it sets
unfoldable pub mark_in_order : RecvBuf → ℕ → RecvBuf
mark_in_order r tmp_off = elim (last_key r.chunks) [
  | none ↦ r
  | some k ↦ if k == tmp_off then record r { max_recv_off = tmp_off } else r
]

unfoldable pub write : RecvBuf → List ℕ → ℕ → Option (Result (Unit {0}) × RecvBuf)
write r out out_off = do
  let buf = range_from out out_off
  buf_len ← range_len buf
  max_off ← range_max_off buf
  tmp_off ← sub64 max_off buf_len
  let r' = mark_in_order r tmp_off
  some (ok tt, record r' { chunks = tree_insert max_off buf r'.chunks })

-- `zero_len`: how many bytes are missing between what was read and the chunk
unfoldable pub missing : ℕ → ℕ → ℕ → Option ℕ
missing max_off last_maxoff data_len = do
  gap ← sub64 max_off last_maxoff
  if gap == data_len then some 0 else sub64 gap data_len

-- The loop of `emit`, which takes the first entry of the map in each round. The result is
-- `last_maxoff`, the chunks that stay, `len`, and the output buffer.
unfoldable pub emit_loop :
    ℕ → List (ℕ × RangeBuf) → ℕ → ℕ → List ℕ → Option (ℕ × List (ℕ × RangeBuf) × ℕ × List ℕ)
emit_loop last_maxoff [] cap len out = some (last_maxoff, [], len, out)
emit_loop last_maxoff ((k, buf) ∷ rest) cap len out =
    if ltb 0 cap
    then (do
      max_off ← range_max_off buf
      data_len ← range_len buf
      zero_len ← missing max_off last_maxoff data_len
      if ltb zero_len cap
          then (do
            let cap' = cap - zero_len
            len' ← add64 len zero_len
            at ← add64 last_maxoff zero_len
            let buf_len = min data_len cap'
            src ← slice_to buf.bytes buf_len
            out' ← copy_at out len' src
            last' ← add64 at buf_len
            if ltb buf_len data_len
                then (do buf' ← consume buf buf_len; some (last', (k, buf') ∷ rest, len', out'))
                else emit_loop last' rest cap' len' out')
          else if zero_len == cap
          then (do
            last' ← add64 last_maxoff zero_len
            len' ← add64 len zero_len
            some (last', (k, buf) ∷ rest, len', out))
          else (do last' ← add64 last_maxoff cap; some (last', (k, buf) ∷ rest, len, out)))
    else some (last_maxoff, (k, buf) ∷ rest, len, out)

-- the number of bytes that the caller is told, the new state, and the output buffer
unfoldable pub emit : RecvBuf → List ℕ → Option (Result ℕ × RecvBuf × List ℕ)
unfolding ready
emit r out =
    if ready r
    then (do
      (last_maxoff, chunks, len, out') ← emit_loop r.last_maxoff r.chunks (length out) 0 out
      some (ok len, record r { last_maxoff = last_maxoff; chunks = chunks }, out'))
    else some (err done, r, out)

unfoldable pub reset : RecvBuf → ℕ → Result ℕ × RecvBuf
reset r size =
    if ltb size r.len
    then (err final_size, r)
    else (ok (size - r.len), record r { off = size; chunks = [] })

unfoldable pub shutdown : RecvBuf → RecvBuf
shutdown r = record r { chunks = [] }
