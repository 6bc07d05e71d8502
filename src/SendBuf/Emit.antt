-- ===== src/SendBuf/Emit.antt =====
-- `SendBuf::emit` on a buffer with a chunk to send.
use dmludp.Prelude.{
  ℕ, zero, suc, ◌+◌, ◌-◌, ◌≤◌, ◌<◌, ◌≡◌, refl, Bool, false, if◌then◌else◌, ◌||◌, ◌==◌, leb, min,
  List, [], ◌∷◌, ◌++◌, length, drop, arith, u64_mod, some, take_all, Bool-cases, inl, inr, le→leb,
  sub64-some, add64-some, slice_to-some, copy_at-some,
}
use native.Mathlib.Nat.{zero-add}
use dmludp.Error.{ok}
use dmludp.RangeBuf.{RangeBuf, off as range_off, len as range_len, is_empty as range_is_empty}
use dmludp.SendBuf.{SendBuf, is_nil, ready, off_front, emit_loop, wrap_pos, emit}
use dmludp.SendBuf.Window.{IsChunk}

module _ (b : RangeBuf) (c : IsChunk b) where
  pub chunk-len : range_len b ≡ some b.len
  unfolding range_len
  chunk-len = ground (arith, c)

  pub chunk-is_empty : range_is_empty b ≡ some false
  unfolding range_is_empty
  chunk-is_empty = ground (arith, c)

  pub chunk-off : b.off < u64_mod → range_off b ≡ some b.off
  unfolding range_off
  chunk-off h = ground (arith, c)

pub is_nil-of_drop :
    {A : Type 0} (n : ℕ) (xs : List A) (y : A) (ys : List A)
    → drop n xs ≡ y ∷ ys
    → is_nil xs ≡ false
is_nil-of_drop zero [] y ys e = cc
is_nil-of_drop (suc n) [] y ys e = cc
is_nil-of_drop n (x ∷ xs) y ys e = refl

-- the state behind the loop of `emit`
abbrev pub emitted : SendBuf → RangeBuf → SendBuf
emitted s b = record s { len = s.len - b.len; used_length = s.used_length - b.len; pos = s.pos + 1 }

emit_loop-emitted :
    (s : SendBuf) (b : RangeBuf) (rest : List RangeBuf) (out : List ℕ)
    → IsChunk b
    → is_nil s.chunks ≡ false
    → b.len ≤ s.len
    → b.len ≤ s.used_length
    → 1024 ≤ length out
    → s.pos + 1 < u64_mod
    → emit_loop s (b ∷ rest) out (length out)
      ≡ some (emitted s b, b.bytes ++ drop (length b.bytes) out, b.len)
unfolding emit_loop ready
emit_loop-emitted s b rest out c some_left l u h p = rw (
  le→leb 1024 (length out) h,
  some_left,
  chunk-is_empty b c,
  chunk-len b c,
  add64-some s.pos 1 p,
  whole_chunk,
  slice_to-some b.bytes b.len (omega arith),
  take_all b.len b.bytes (omega arith),
  copy_at-some out 0 b.bytes (omega arith),
  sub64-some s.len b.len l,
  sub64-some s.used_length b.len u,
  le→leb b.len b.len (omega arith),
  zero-add,
)
  where
    whole_chunk : min b.len (length out) ≡ b.len
    whole_chunk = omega arith

-- the state that `emit` leaves when it has sent the chunk `b`
abbrev pub sent_chunk : SendBuf → RangeBuf → Bool → SendBuf
sent_chunk s b stop = record (emitted s b) {
  sent = s.sent + b.len;
  pos = if stop then 0 else s.pos + 1;
}

-- The window is used up, or the last chunk has been sent.
abbrev pub stops : SendBuf → RangeBuf → Bool
stops s b = leb s.max_data (s.sent + b.len) || s.pos + 1 == length s.chunks

wrap_pos_lem :
    (s : SendBuf) (b : RangeBuf)
    → is_nil s.chunks ≡ false
    → wrap_pos (record (emitted s b) { sent = s.sent + b.len })
      ≡ (stops s b, sent_chunk s b (stops s b))
unfolding wrap_pos
wrap_pos_lem s b some_left = elim (Bool-cases (leb s.max_data (s.sent + b.len))) [
  | inl full ↦ rw (full, not_none s.chunks some_left)
  | inr room ↦ elim (Bool-cases (s.pos + 1 == length s.chunks)) [
    | inl last ↦ rw (room, last)
    | inr more ↦ rw (room, more)
  ]
]
  where
    not_none : (bs : List RangeBuf) → is_nil bs ≡ false → (0 == length bs) ≡ false
    not_none [] e = cc
    not_none (x ∷ bs) e = ground arith

-- `emit` with a chunk to send and 1024 bytes of room: it sends that one chunk whole, at the start of
-- the buffer, and reports its length and offset; it moves on to the next chunk, or stops and goes
-- back to the first. The other bytes of the buffer, the chunks and their flags stay as they are.
pub emit_lem :
    (s : SendBuf) (b : RangeBuf) (rest : List RangeBuf) (out : List ℕ)
    → IsChunk b
    → drop s.pos s.chunks ≡ b ∷ rest
    → b.off < u64_mod
    → b.len ≤ s.len
    → b.len ≤ s.used_length
    → 1024 ≤ length out
    → s.pos + 1 < u64_mod
    → s.sent + b.len < u64_mod
    → emit s out
      ≡ some (
        ok (b.len, b.off, stops s b),
        sent_chunk s b (stops s b),
        b.bytes ++ drop (length b.bytes) out,
      )
unfolding emit off_front
emit_lem s b rest out c next o l u h p q =
    let some_left : is_nil s.chunks ≡ false = is_nil-of_drop s.pos s.chunks b rest next in
    rw (
      next,
      chunk-is_empty b c,
      chunk-off b c o,
      emit_loop-emitted s b rest out c some_left l u h p,
      add64-some s.sent b.len q,
      wrap_pos_lem s b some_left,
    )
