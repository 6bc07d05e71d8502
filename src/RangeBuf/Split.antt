-- ===== src/RangeBuf/Split.antt =====
-- Splitting a `RangeBuf`.
use dmludp.Prelude.{
  ℕ, zero, suc, ◌+◌, ◌-◌, ◌≡◌, ◌≤◌, ◌<◌, refl, sym, ap, ◌∙◌, some, List, [], ◌∷◌, ◌++◌, take, drop,
  arith, length-drop, drop-drop, min, take_all,
}
use dmludp.RangeBuf.{RangeBuf, IsValid, off, len, max_off, split_off, deref}

-- the bytes from `pos` to `len`
abbrev pub unread : RangeBuf → List ℕ
unread b = take (b.len - b.pos) (drop b.pos b.bytes)

pub deref_lem : {b : RangeBuf} → IsValid b → deref b ≡ some (unread b)
unfolding deref
deref_lem v = ground arith

pub offsets_lem :
    {b : RangeBuf}
    → IsValid b
    → (off b ≡ some (b.off + b.pos))
      × (len b ≡ some (b.len - b.pos))
      × (max_off b ≡ some (b.off + b.len))
unfolding off len max_off
offsets_lem v = (ground arith, ground arith, ground arith)

take_split {ℓ} :
    {A : Type ℓ} (m n : ℕ) (xs : List A) → take m xs ++ take n (drop m xs) ≡ take (m + n) xs
take_split zero n xs = ap (λ k. take k xs) (omega arith)
take_split (suc m) zero [] = sym (take_all (suc m + 0) [] (omega arith))
take_split (suc m) (suc n) [] = sym (take_all (suc m + suc n) [] (omega arith))
take_split (suc m) n (x ∷ xs) =
    let e : suc m + n ≡ suc (m + n) = omega arith in rw e (ap (λ l. x ∷ l) (take_split m n xs))

-- what is left in `self`, and what `split_off` returns
abbrev pub front : RangeBuf → ℕ → RangeBuf
front b at = record b { pos = min b.pos (b.start + at); len = at }

abbrev pub back : RangeBuf → ℕ → RangeBuf
back b at = record {
  bytes = drop at b.bytes;
  start = 0;
  pos = 0;
  len = b.len - at;
  off = b.off + at;
}

module _ {b : RangeBuf} (at : ℕ) (v : IsValid b) (k : at ≤ b.len) where
  split_off-some : split_off b at ≡ some (front b at, back b at)
  unfolding split_off
  split_off-some = ground arith

  front-IsValid : IsValid (front b at)
  front-IsValid = omega arith

  back-IsValid : IsValid (back b at)
  back-IsValid = omega (arith, length-drop at b.bytes)

  unread-front : unread (front b at) ≡ take (at - min b.pos at) (drop (min b.pos at) b.bytes)
  unread-front = let e : min b.pos (b.start + at) ≡ min b.pos at = omega arith in rw e

  unread-back : unread (back b at) ≡ take (b.len - at) (drop at b.bytes)
  unread-back = let e : b.len - at - 0 ≡ b.len - at = omega arith in rw e

  unread-split :
      take (b.len - min b.pos at) (drop (min b.pos at) b.bytes)
      ≡ unread (front b at) ++ unread (back b at)
  unread-split =
      ap (λ n. take n (drop (min b.pos at) b.bytes)) all
      ∙ sym (take_split (at - min b.pos at) (b.len - at) (drop (min b.pos at) b.bytes))
      ∙ rw (drop-drop, there, unread-front, unread-back)
    where
      all : b.len - min b.pos at ≡ at - min b.pos at + (b.len - at)
      all = omega arith

      there : min b.pos at + (at - min b.pos at) ≡ at
      there = omega arith

  -- Splitting a valid buffer within its length gives two valid buffers that lie next to one another:
  -- the back begins where the front ends, and it ends where the whole did. If no more is consumed
  -- than the first `at` bytes, the unread bytes of the two, in order, are those of the whole.
  -- Otherwise the consumed bytes from `at` on are unread again, in front of those that were.
  pub split_off_lem :
      (split_off b at ≡ some (front b at, back b at))
      × IsValid (front b at)
      × IsValid (back b at)
      × (max_off (front b at) ≡ off (back b at))
      × (max_off (back b at) ≡ max_off b)
      × (b.pos ≤ at → unread (front b at) ++ unread (back b at) ≡ unread b)
      × (at < b.pos
          → unread (front b at) ++ unread (back b at)
            ≡ take (b.pos - at) (drop at b.bytes) ++ unread b)
  split_off_lem =
      let (o, l, m) = offsets_lem v in
      let (o1, l1, m1) = offsets_lem front-IsValid in
      let (o2, l2, m2) = offsets_lem back-IsValid in
      (
        split_off-some,
        front-IsValid,
        back-IsValid,
        m1 ∙ ap some (omega arith) ∙ sym o2,
        m2 ∙ ap some (omega arith) ∙ sym m,
        (λ h. sym unread-split ∙ same h),
        (λ h. sym unread-split ∙ again h),
      )
    where
      same : b.pos ≤ at → take (b.len - min b.pos at) (drop (min b.pos at) b.bytes) ≡ unread b
      same h = let e : min b.pos at ≡ b.pos = omega (arith, h) in rw e refl

      again :
          at < b.pos
          → take (b.len - min b.pos at) (drop (min b.pos at) b.bytes)
            ≡ take (b.pos - at) (drop at b.bytes) ++ unread b
      again h =
          let e : min b.pos at ≡ at = omega (arith, h) in
          let n : b.len - at ≡ b.pos - at + (b.len - b.pos) = omega (arith, h, v.consumed) in
          let d : at + (b.pos - at) ≡ b.pos = omega (arith, h) in
          let whole = take_split (b.pos - at) (b.len - b.pos) (drop at b.bytes) in
          rw (e, n) (sym whole ∙ rw (drop-drop, d) refl)
