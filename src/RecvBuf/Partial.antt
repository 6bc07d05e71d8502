-- ===== src/RecvBuf/Partial.antt =====
-- `RecvBuf::emit` into a buffer that is too small for the chunk.
use dmludp.Prelude.{
  ℕ, ◌+◌, ◌-◌, ◌≤◌, ◌<◌, ◌≡◌, ap, ◌∙◌, ltb, min, List, [], ◌∷◌, ◌++◌, length, take, drop, arith,
  some, length-take, drop_all, append-nil, add64-some, slice_to-some, ltb_irrefl, copy_at,
  copy_at-some, if◌then◌else◌, lt→ltb,
}
use native.Mathlib.Nat.{zero-add, add-zero, sub-zero}
use dmludp.Error.{ok}
use dmludp.RangeBuf.{RangeBuf, len as range_len, max_off as range_max_off, consume}
use dmludp.RecvBuf.{RecvBuf, missing, emit_loop, emit}
use dmludp.RecvBuf.Read.{IsWhole}

-- the buffer with the one chunk `b`, of which `n` bytes were read
abbrev pub holding : RecvBuf → ℕ → RangeBuf → ℕ → RecvBuf
holding r k b n = record r { chunks = (k, record b { pos = n }) ∷ []; last_maxoff = b.off + n }

module _ (r : RecvBuf) (k : ℕ) (b : RangeBuf) (w : IsWhole b) where
  partial-len : (n : ℕ) → n ≤ b.len → range_len (record b { pos = n }) ≡ some (b.len - n)
  unfolding range_len
  partial-len n h = ground (arith, w)

  partial-max_off :
      (n : ℕ) → n ≤ b.len → range_max_off (record b { pos = n }) ≡ some (b.off + b.len)
  unfolding range_max_off
  partial-max_off n h = ground (arith, w)

  nothing_missing : (n : ℕ) → n ≤ b.len → missing (b.off + b.len) (b.off + n) (b.len - n) ≡ some 0
  unfolding missing
  nothing_missing n h = ground (arith, w)

  module _ (n m : ℕ) (out : List ℕ) (some_left : n + m ≤ b.len) (fits : m ≤ length out) where
    copied : copy_at out 0 (take m b.bytes) ≡ some (take m b.bytes ++ drop m out)
    copied =
        let e : length (take m b.bytes) ≡ m = omega (arith, length-take m b.bytes) in
        copy_at-some out 0 (take m b.bytes) (omega (arith, e))
        ∙ ap (λ k. some (take m b.bytes ++ drop k out)) (zero-add (length (take m b.bytes)) ∙ e)

    -- One round of `emit` on the chunk: `m` bytes are copied from its front, not from `pos`.
    read_loop :
        0 < length out
        → min (b.len - n) (length out) ≡ m
        → emit_loop (b.off + n) ((k, record b { pos = n }) ∷ []) (length out) 0 out ≡ (
            if ltb m (b.len - n)
            then some
                (b.off + n + m, (k, record b { pos = n + m }) ∷ [], 0, take m b.bytes ++ drop m out)
            else some (b.off + n + m, [], 0, take m b.bytes ++ drop m out))
    unfolding emit_loop consume
    read_loop p e = rw (
      lt→ltb 0 (length out) p,
      partial-len n (omega arith),
      partial-max_off n (omega arith),
      nothing_missing n (omega arith),
      lt→ltb 0 (length out) p,
      add64-some (b.off + n) 0 (omega (arith, w)),
      add-zero (b.off + n),
      sub-zero (length out),
      e,
      slice_to-some b.bytes m (omega (arith, w)),
      copied,
      add64-some (b.off + n) m (omega (arith, w)),
      add64-some n m (omega (arith, w)),
    )

  -- The first read fills the reader's buffer from the chunk's front.
  first_read :
      (out : List ℕ)
      → 0 < length out
      → length out < b.len
      → emit (holding r k b 0) out
        ≡ some (ok 0, holding r k b (length out), take (length out) b.bytes)
  unfolding emit
  first_read out p h = rw (
    read_loop 0 (length out) out (omega arith) (omega arith) p (omega arith),
    lt→ltb (length out) (b.len - 0) (omega arith),
    drop_all (length out) out (omega arith),
    append-nil,
    add-zero b.off,
    zero-add (length out),
  )

  -- The second one takes the rest.
  second_read :
      (n : ℕ) (out : List ℕ)
      → n < b.len
      → b.len - n ≤ length out
      → emit (holding r k b n) out
        ≡ some (
          ok 0,
          record r { chunks = []; last_maxoff = b.off + b.len },
          take (b.len - n) b.bytes ++ drop (b.len - n) out,
        )
  unfolding emit
  second_read n out h fits =
      let whole : b.off + n + (b.len - n) ≡ b.off + b.len = omega arith in
      rw (
        read_loop n (b.len - n) out (omega arith) fits (omega arith) (omega arith),
        ltb_irrefl (b.len - n),
        whole,
      )

  -- A chunk that is read in two parts is delivered wrongly: the second call of `emit` writes the
  -- chunk's first bytes once more, where the bytes behind those of the first call belong; then
  -- the chunk is gone. Both calls report 0 bytes. (Conditions: the first buffer is shorter than
  -- the chunk, and the second one has room for what is left.)
  pub partial_read_repeats :
      (out out' : List ℕ)
      → 0 < length out
      → length out < b.len
      → b.len - length out ≤ length out'
      → (emit (holding r k b 0) out
          ≡ some (ok 0, holding r k b (length out), take (length out) b.bytes))
        × (emit (holding r k b (length out)) out'
            ≡ some (
              ok 0,
              record r { chunks = []; last_maxoff = b.off + b.len },
              take (b.len - length out) b.bytes ++ drop (b.len - length out) out',
            ))
  partial_read_repeats out out' p h fits =
      (first_read out p h, second_read (length out) out' h fits)
