-- ===== src/SendBuf/Pieces.antt =====
-- How `SendBuf::write` cuts the bytes that it takes, and what it adds to the window.
use dmludp.Prelude.{
  ℕ, ◌+◌, ◌-◌, ◌≤◌, ◌<◌, ◌≡◌, refl, ap, sym, ◌∙◌, Bool, false, if◌then◌else◌, ltb, List, [], ◌∷◌,
  ◌++◌, length, take, drop, arith, u64_mod, some, Sized, concat, chunks, concat-chunks,
  chunks-Sized, append-nil, length-take, length-drop, take-append-drop, Bool-cases, inl, inr, ◌>>=◌,
  ltb→lt,
}
use dmludp.RangeBuf.{RangeBuf}
use dmludp.SendBuf.{SendBuf, is_nil, total, push_chunk, write_loop, send_buffer_size, write_data}
use dmludp.SendBuf.Window.{Laid, IsValid, Entry, view}
use dmludp.SendBuf.Push.{
  fresh, size, length-concat, push_all, pushed, push_chunk-pushed, pushed-IsValid, HasRoom,
  write_loop-push_all,
}

-- How `write` cuts the bytes that it takes: a first piece of `off_len` bytes where that is not 0, and
-- then pieces of 1024.
abbrev pub pieces : List ℕ → ℕ → List (List ℕ)
pieces d off_len =
    if is_nil d
    then []
    else if ltb 0 off_len
    then if ltb off_len (length d) then take off_len d ∷ chunks 1024 (drop off_len d) else d ∷ []
    else chunks 1024 (drop off_len d)

-- bytes in the window
abbrev pub load : List Entry → ℕ
load [] = 0
load (e ∷ es) = length e.content + load es

pub load-append : (es fs : List Entry) → load (es ++ fs) ≡ load es + load fs
load-append [] fs = omega arith
load-append (e ∷ es) fs = omega (arith, load-append es fs)

pub load-fresh : (o : ℕ) (cs : List (List ℕ)) → load (fresh o cs) ≡ size cs
load-fresh o [] = refl
load-fresh o (c ∷ cs) = omega (arith, load-fresh (o + length c) cs)

pub load-view :
    (lo : ℕ) (bs : List RangeBuf) (m : List (ℕ × Bool)) (hi : ℕ)
    → Laid lo bs m hi
    → total bs ≡ load (view bs m)
load-view lo [] [] hi l = refl
load-view lo (b ∷ bs) ((k, v) ∷ m) hi (c, e, p, l) =
    omega (arith, load-view (b.off + b.len) bs m hi l)
load-view lo [] (f ∷ m) hi l = absurd l
load-view lo (b ∷ bs) [] hi l = absurd l

-- The pieces make up the data.
pub concat-pieces : (d : List ℕ) (off_len : ℕ) → concat (pieces d off_len) ≡ d
concat-pieces [] off_len = refl
concat-pieces (x ∷ d) off_len = elim (Bool-cases (ltb 0 off_len)) [
  | inl some_first ↦ elim (Bool-cases (ltb off_len (length (x ∷ d)))) [
    | inl more ↦
        rw (some_first, more, concat-chunks 1024 (drop off_len (x ∷ d)) (omega arith))
          (take-append-drop off_len (x ∷ d))
    | inr less ↦ rw (some_first, less) (append-nil (x ∷ d))
  ]
  | inr no_first ↦
      let e : off_len ≡ 0 = ground arith in
      rw (no_first, e) (concat-chunks 1024 (x ∷ d) (omega arith))
]

pub pieces-Sized : (d : List ℕ) (off_len : ℕ) → off_len ≤ 1024 → Sized 1024 (pieces d off_len)
pieces-Sized [] off_len h = tt
pieces-Sized (x ∷ d) off_len h = elim (Bool-cases (ltb 0 off_len)) [
  | inl some_first ↦ elim (Bool-cases (ltb off_len (length (x ∷ d)))) [
    | inl more ↦
        rw (some_first, more)
          (
            omega (arith, ltb→lt _ _ some_first, ltb→lt _ _ more, length-take off_len (x ∷ d)),
            omega (arith, length-take off_len (x ∷ d)),
            chunks-Sized 1024 (drop off_len (x ∷ d)) (omega arith),
          )
    | inr less ↦ rw (some_first, less) (omega arith, ground arith, tt)
  ]
  | inr no_first ↦ rw no_first (chunks-Sized 1024 (drop off_len (x ∷ d)) (omega arith))
]

pub size-pieces : (d : List ℕ) (off_len : ℕ) → size (pieces d off_len) ≡ length d
size-pieces d off_len = sym (length-concat (pieces d off_len)) ∙ ap length (concat-pieces d off_len)

size-chunks : (d : List ℕ) → size (chunks 1024 d) ≡ length d
size-chunks d = sym (length-concat (chunks 1024 d)) ∙ ap length (concat-chunks 1024 d (omega arith))

module _ (s : SendBuf) (d : List ℕ) (off_len : ℕ) (v : IsValid s)
    (room : HasRoom s (length d)) where
  -- the branch of `write` that begins with a piece of `off_len` bytes
  first_and_rest :
      0 < off_len
      → off_len < length d
      → off_len ≤ 1024
      → length d < u64_mod
      → (push_chunk s (take off_len d) >>= λ s'.
          write_loop s' (chunks send_buffer_size (drop off_len d)) off_len)
        ≡ some (length d, push_all s (take off_len d ∷ chunks 1024 (drop off_len d)))
  first_and_rest p q h small = rw (push_chunk-pushed s (take off_len d) v (omega (arith, first))) (
      write_loop-push_all (pushed s (take off_len d)) (chunks 1024 (drop off_len d)) off_len
        (pushed-IsValid s (take off_len d) v (omega (arith, first)) (omega (arith, first))
          (omega (arith, first)))
        (chunks-Sized 1024 (drop off_len d) (omega arith)) (omega (arith, first, rest))
        (omega (arith, rest))
      ∙ ap (λ k. some (k, push_all s (take off_len d ∷ chunks 1024 (drop off_len d))))
          (omega (arith, rest)))
    where
      first : length (take off_len d) ≡ off_len
      first = omega (arith, length-take off_len d)

      rest : size (chunks 1024 (drop off_len d)) ≡ length d - off_len
      rest = size-chunks (drop off_len d) ∙ length-drop off_len d

  pub write_data-push_all :
      is_nil d ≡ false
      → off_len ≤ 1024
      → length d < u64_mod
      → write_data s d off_len ≡ some (length d, push_all s (pieces d off_len))
  unfolding write_data
  write_data-push_all full h small = elim (Bool-cases (ltb 0 off_len)) [
    | inl some_first ↦ elim (Bool-cases (ltb off_len (length d))) [
      | inl more ↦
          rw (full, some_first, more)
            (first_and_rest (ltb→lt _ _ some_first) (ltb→lt _ _ more) h small)
      | inr less ↦ rw (full, some_first, less) (rw (push_chunk-pushed s d v room))
    ]
    | inr no_first ↦
        let e : off_len ≡ 0 = ground arith in
        rw (full, no_first, e)
          (write_loop-push_all s (chunks 1024 d) 0 v (chunks-Sized 1024 d (omega arith))
              (omega (arith, size-chunks d)) (omega (arith, size-chunks d))
            ∙ ap (λ k. some (k, push_all s (chunks 1024 d))) (omega (arith, size-chunks d)))
  ]
