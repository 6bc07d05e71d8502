-- ===== src/Connection/Text/Classes.antt =====
-- The priorities that the split points of `data_send` give to the blocks of the bytes it stores.
use dmludp.Prelude.{
  ℕ, zero, suc, ◌+◌, ◌*◌, ◌/◌, ◌≤◌, ◌≡◌, refl, subst, ap, sym, ◌∙◌, ◌==◌, leb, Bool, true,
  Bool-cases, if◌then◌else◌, inl, inr, some, List, [], ◌∷◌, map, length, get_elem?, bind-some,
  arith, ◌>>=◌,
}
use mathlib.Core.Option.{some-injective}
use dmludp.Floats.{Floats, FloatsLaws}
use dmludp.Connection.{Connection, priority_calculation}
use dmludp.Connection.Text.{sort, part_loop, set_split_points, data_send}
use dmludp.Connection.Text.Blocks.{parts_of, part_loop-counts, set_split_points-fields}
use dmludp.Connection.Text.Order.{
  count, sort-count, sort-Ordered, AtMost, AllAtMost, Ordered, lt32-AtMost, lt32_trans, lt32_irrefl,
}

get_elem?-map :
    {A B : Type 0} (g : A → B) (xs : List A) (i : ℕ)
    → get_elem? (map g xs) i ≡ (do x ← get_elem? xs i; some (g x))
get_elem?-map g [] i = refl
get_elem?-map g (x ∷ xs) zero = refl
get_elem?-map g (x ∷ xs) (suc i) = get_elem?-map g xs i

count-map :
    {A B : Type 0} (p : B → Bool) (g : A → B) (xs : List A)
    → count p (map g xs) ≡ count (λ x. p (g x)) xs
count-map p g [] = refl
count-map p g (x ∷ xs) = ap (λ n. (if p (g x) then 1 else 0) + n) (count-map p g xs)

count_mono :
    {A : Type 0} (p q : A → Bool) (xs : List A)
    → ((x : A) → p x ≡ true → q x ≡ true)
    → count p xs ≤ count q xs
count_mono p q [] h = omega arith
count_mono p q (x ∷ xs) h =
    let rest = count_mono p q xs h in
    elim (Bool-cases (p x)) [
      | inl holds ↦ rw (holds, h x holds) (omega (arith, rest))
      | inr fails ↦ rw fails (ground (arith, rest))
    ]

-- the priority of a block with the norm `y`
module _ (f : Floats) where
  abbrev class : f.F32 → f.F32 → f.F32 → ℕ
  class low high y = if f.lt32 y low then 1 else if f.lt32 y high then 2 else 3

  -- the priorities of the blocks of 1024 bytes, in order
  abbrev pub block_priorities : Connection f → List ℕ
  block_priorities c = map (class c.low_split_point c.high_split_point) c.norm2_vec

  priority-block :
      (c : Connection f) (off : ℕ)
      → priority_calculation f c off ≡ get_elem? (block_priorities c) (off / 1024)
  unfolding priority_calculation
  priority-block c off =
      rw (get_elem?-map (class c.low_split_point c.high_split_point) c.norm2_vec (off / 1024)) refl

  class-1 : (low high y : f.F32) → class low high y == 1 ≡ true → f.lt32 y low ≡ true
  class-1 low high y e = ground arith

  class-2 :
      (low high y : f.F32)
      → (f.lt32 y low ≡ true → f.lt32 y high ≡ true)
      → leb (class low high y) 2 ≡ true
      → f.lt32 y high ≡ true
  class-2 low high y h e = ground arith

  set_split_points-some :
      (c c' : Connection f) (copy : List f.F32)
      → set_split_points f c copy ≡ some c'
      → (sorted : List f.F32) × (sort f copy ≡ some sorted)
        × (get_elem? sorted (length sorted * 3 / 10) ≡ some c'.low_split_point)
        × (get_elem? sorted (length sorted * 7 / 10) ≡ some c'.high_split_point)
  unfolding set_split_points
  set_split_points-some c c' copy e =
      let (sorted, s, e1) = bind-some (sort f copy) _ _ e in
      let (low, l, e2) = bind-some (get_elem? sorted (length sorted * 3 / 10)) _ _ e1 in
      let (high, h, e3) = bind-some (get_elem? sorted (length sorted * 7 / 10)) _ _ e2 in
      let same = some-injective _ _ e3 in
      (
        sorted,
        s,
        l ∙ ap (λ x. some x.low_split_point) same,
        h ∙ ap (λ x. some x.high_split_point) same,
      )

module _ (f : Floats) (laws : FloatsLaws f) where
  AllAtMost-count :
      (x : f.F32) (ys : List f.F32) → AllAtMost f laws x ys → count (λ y. f.lt32 y x) ys ≡ 0
  AllAtMost-count x [] a = refl
  AllAtMost-count x (y ∷ ys) (p, a) =
      rw (lt32-AtMost f laws x y p) (omega (arith, AllAtMost-count x ys a))

  AllAtMost-get :
      (x y : f.F32) (ys : List f.F32) (i : ℕ)
      → AllAtMost f laws x ys
      → get_elem? ys i ≡ some y
      → AtMost f laws x y
  AllAtMost-get x y [] i a e = cc
  AllAtMost-get x y (z ∷ ys) zero (p, a) e = subst (AtMost f laws x) (some-injective _ _ e) p
  AllAtMost-get x y (z ∷ ys) (suc i) (p, a) e = AllAtMost-get x y ys i a e

  Ordered-count :
      (zs : List f.F32) (i : ℕ) (x : f.F32)
      → Ordered f laws zs
      → get_elem? zs i ≡ some x
      → count (λ y. f.lt32 y x) zs ≤ i
  Ordered-count [] i x s e = cc
  Ordered-count (z ∷ zs) zero x (a, s) e =
      let same = some-injective _ _ e in
      subst (λ w. count (λ y. f.lt32 y w) (z ∷ zs) ≤ 0) same
        (rw (lt32_irrefl f laws z, AllAtMost-count z zs a) (omega arith))
  Ordered-count (z ∷ zs) (suc i) x (a, s) e =
      let rest = Ordered-count zs i x s e in ground (arith, rest)

  Ordered-less :
      (zs : List f.F32) (i j : ℕ) (w x y : f.F32)
      → Ordered f laws zs
      → get_elem? zs i ≡ some x
      → get_elem? zs j ≡ some y
      → i ≤ j
      → f.lt32 w x ≡ true
      → f.lt32 w y ≡ true
  Ordered-less [] i j w x y s p q h l = cc
  Ordered-less (z ∷ zs) (suc i) zero w x y s p q h l = grind (arith, h)
  Ordered-less (z ∷ zs) zero zero w x y s p q h l =
      subst (λ v. f.lt32 w v ≡ true) (some-injective _ _ (sym p ∙ q)) l
  Ordered-less (z ∷ zs) zero (suc j) w x y (a, s) p q h l =
      lt32_trans f laws w x y l
        (subst (λ v. AtMost f laws v y) (some-injective _ _ p) (AllAtMost-get z y zs j a q))
  Ordered-less (z ∷ zs) (suc i) (suc j) w x y (a, s) p q h l =
      Ordered-less zs i j w x y s p q (omega (arith, h)) l

  -- The split points of `data_send` cut its blocks into classes: with n norms, at most 3n / 10
  -- blocks have the priority 1, at most 7n / 10 have 1 or 2, and the priority of an offset is that of
  -- its block of 1024 bytes. (Condition: `data_send` does not panic.)
  pub classes_of_data_send :
      (c c' : Connection f) (text : List ℕ)
      → data_send f c text ≡ some c'
      → ((off : ℕ) → priority_calculation f c' off ≡ get_elem? (block_priorities f c') (off / 1024))
        × (count (λ p. p == 1) (block_priorities f c') ≤ length c'.norm2_vec * 3 / 10)
        × (count (λ p. leb p 2) (block_priorities f c') ≤ length c'.norm2_vec * 7 / 10)
  unfolding data_send
  classes_of_data_send c c' text e =
      let ((c2, copy), run, e1) = bind-some (part_loop f (parts_of text) _ []) _ _ e in
      let (_, _, same) = part_loop-counts f laws (parts_of text) _ c2 [] copy run in
      let norms : c'.norm2_vec ≡ copy =
        (set_split_points-fields f laws c2 c' copy e1).1 ∙ same refl in
      let (sorted, s, l, h) = set_split_points-some f c2 c' copy e1 in
      let (n, k) = sort-count f copy sorted s in
      let low : f.F32 = c'.low_split_point in
      let high : f.F32 = c'.high_split_point in
      let order = sort-Ordered f laws copy sorted s in
      let ones =
        count_mono (λ y. class f low high y == 1) (λ y. f.lt32 y low) copy (class-1 f low high) in
      let twos =
        count_mono (λ y. leb (class f low high y) 2) (λ y. f.lt32 y high) copy
          (λ y.
            class-2 f low high y (Ordered-less sorted _ _ y low high order l h (omega arith))) in
      (
        priority-block f c',
        rw (count-map (λ p. p == 1) (class f low high) c'.norm2_vec, norms)
            (omega (arith, ones, k (λ y. f.lt32 y low), n, Ordered-count sorted _ low order l)),
        rw (count-map (λ p. leb p 2) (class f low high) c'.norm2_vec, norms)
            (omega (arith, twos, k (λ y. f.lt32 y high), n, Ordered-count sorted _ high order h)),
      )
