-- ===== src/Prelude/Chunks.antt =====
-- `[T]::chunks` of Rust's core library, and its laws.
use Prim.Native.Nat.{ℕ, zero, suc, ◌≤◌, ◌<◌}
use mathlib.Core.Path.{◌≡◌, refl, ap, ◌∙◌}
use native.Mathlib.Decide.{dec_lt}
use mathlib.Core.Logic.{◌≢◌}
use mathlib.Core.List.{List, [], ◌∷◌, ◌++◌}
use native.Mathlib.Omega.{arith}
use dmludp.Prelude.Lists.{length, drop_all, take, drop, take-append-drop, length-take, length-drop}

module _ {ℓ} {A : Type ℓ} where
  abbrev pub concat : List (List A) → List A
  concat [] = []
  concat (xs ∷ xss) = xs ++ concat xss

  -- Every chunk takes one element at least, so as many rounds as elements are enough.
  chunk_loop : ℕ → ℕ → List A → List (List A)
  chunk_loop zero n xs = []
  chunk_loop (suc fuel) n [] = []
  chunk_loop (suc fuel) n (x ∷ xs) = take n (x ∷ xs) ∷ chunk_loop fuel n (drop n (x ∷ xs))

  unfoldable pub chunks : ℕ → List A → List (List A)
  unfolding chunk_loop
  chunks n xs = chunk_loop (length xs) n xs

  concat-chunk_loop :
      (fuel n : ℕ) (xs : List A) → 0 < n → length xs ≤ fuel → concat (chunk_loop fuel n xs) ≡ xs
  unfolding chunk_loop
  concat-chunk_loop zero n [] p h = refl
  concat-chunk_loop zero n (x ∷ xs) p h = absurd (omega arith)
  concat-chunk_loop (suc fuel) n [] p h = refl
  concat-chunk_loop (suc fuel) n (x ∷ xs) p h =
      ap (λ r. take n (x ∷ xs) ++ r)
        (concat-chunk_loop fuel n (drop n (x ∷ xs)) p (omega (arith, length-drop n (x ∷ xs))))
      ∙ take-append-drop n (x ∷ xs)

  -- In order, the chunks make up the whole.
  pub concat-chunks : (n : ℕ) (xs : List A) → 0 < n → concat (chunks n xs) ≡ xs
  unfolding chunks
  concat-chunks n xs p = concat-chunk_loop (length xs) n xs p (omega arith)

  -- Each list has 1 to `n` elements.
  abbrev pub Sized : ℕ → List (List A) → Type 0
  Sized n [] = Unit
  Sized n (c ∷ cs) = (0 < length c) × (length c ≤ n) × Sized n cs

  chunk_loop-Sized : (fuel n : ℕ) (xs : List A) → 0 < n → Sized n (chunk_loop fuel n xs)
  unfolding chunk_loop
  chunk_loop-Sized zero n xs p = tt
  chunk_loop-Sized (suc fuel) n [] p = tt
  chunk_loop-Sized (suc fuel) n (x ∷ xs) p = (
    omega (arith, length-take n (x ∷ xs)),
    omega (arith, length-take n (x ∷ xs)),
    chunk_loop-Sized fuel n (drop n (x ∷ xs)) p,
  )

  pub chunks-Sized : (n : ℕ) (xs : List A) → 0 < n → Sized n (chunks n xs)
  unfolding chunks
  chunks-Sized n xs p = chunk_loop-Sized (length xs) n xs p

  -- Each list but the last has `n` elements, and the last has no more.
  abbrev pub Full : ℕ → List (List A) → Type (ℓ)
  Full n [] = Unit
  Full n (c ∷ cs) = (length c ≤ n) × (cs ≢ [] → length c ≡ n) × Full n cs

  chunk_loop-nil : (fuel n : ℕ) → chunk_loop fuel n [] ≡ []
  unfolding chunk_loop
  chunk_loop-nil zero n = refl
  chunk_loop-nil (suc fuel) n = refl

  chunk_loop-Full : (fuel n : ℕ) (xs : List A) → Full n (chunk_loop fuel n xs)
  unfolding chunk_loop
  chunk_loop-Full zero n xs = tt
  chunk_loop-Full (suc fuel) n [] = tt
  chunk_loop-Full (suc fuel) n (x ∷ xs) = (
    omega (arith, length-take n (x ∷ xs)),
    λ more. elim (dec_lt n (length (x ∷ xs))) [
      | yes long ↦ omega (arith, length-take n (x ∷ xs), long)
      | no short ↦ absurd (
          more (
            ap (chunk_loop fuel n) (drop_all n (x ∷ xs) (omega (arith, short)))
            ∙ chunk_loop-nil fuel n))
    ],
    chunk_loop-Full fuel n (drop n (x ∷ xs)),
  )

  pub chunks-Full : (n : ℕ) (xs : List A) → Full n (chunks n xs)
  unfolding chunks
  chunks-Full n xs = chunk_loop-Full (length xs) n xs
