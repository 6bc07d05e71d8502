-- ===== src/Connection/Text/Sorted.antt =====
-- The sort of `data_send` succeeds on numbers, and so does the choice of the split points.
use Prim.Native.Nat.{Ordering, compare}
use dmludp.Prelude.{
  ℕ, ◌*◌, ◌/◌, ◌<◌, ◌≡◌, ◌≢◌, refl, ◌∙◌, Option, some, none, List, [], ◌∷◌, length, get_elem?-some,
  arith,
}
use dmludp.Floats.{Floats, FloatsLaws, compare_ranks}
use dmludp.Connection.{Connection}
use dmludp.Connection.Text.{place, insert_sorted, sort, set_split_points}
use dmludp.Connection.Text.Order.{sort-count}

module _ (f : Floats) (laws : FloatsLaws f) where
  abbrev pub AllNumbers : List f.F32 → Type 0
  AllNumbers [] = Unit
  AllNumbers (x ∷ xs) = (laws.rank x ≢ none) × AllNumbers xs

  compare_some :
      (x y : f.F32)
      → laws.rank x ≢ none
      → laws.rank y ≢ none
      → (o : Ordering) × (f.partial_cmp x y ≡ some o)
  compare_some x y p q =
      let (o, e) = ranks (laws.rank x) (laws.rank y) p q in (o, laws.partial_cmp_lem x y ∙ e)
    where
      ranks : (m n : Option ℕ) → m ≢ none → n ≢ none → (o : Ordering) × (compare_ranks m n ≡ some o)
      ranks none n p q = absurd (p refl)
      ranks (some a) none p q = absurd (q refl)
      ranks (some a) (some b) p q = (compare a b, refl)

  place-AllNumbers :
      (o : Ordering) (x y : f.F32) (ys r : List f.F32)
      → laws.rank x ≢ none
      → AllNumbers (y ∷ ys)
      → AllNumbers r
      → (zs : List f.F32) × (place f o x y ys (some r) ≡ some zs) × AllNumbers zs
  unfolding place
  place-AllNumbers Ordering.lt x y ys r p a b = (x ∷ y ∷ ys, refl, (p, a))
  place-AllNumbers Ordering.eq x y ys r p a b = (x ∷ y ∷ ys, refl, (p, a))
  place-AllNumbers Ordering.gt x y ys r p a b = (y ∷ r, refl, (a.0, b))

  insert_sorted-AllNumbers :
      (x : f.F32) (ys : List f.F32)
      → laws.rank x ≢ none
      → AllNumbers ys
      → (zs : List f.F32) × (insert_sorted f x ys ≡ some zs) × AllNumbers zs
  unfolding insert_sorted
  insert_sorted-AllNumbers x [] p a = (x ∷ [], refl, (p, tt))
  insert_sorted-AllNumbers x (y ∷ ys) p (q, a) =
      let (r, inserted, b) = insert_sorted-AllNumbers x ys p a in
      let (o, compared) = compare_some x y p q in
      let (zs, placed, d) = place-AllNumbers o x y ys r p (q, a) b in
      (zs, rw (compared, inserted) placed, d)

  sort-AllNumbers :
      (xs : List f.F32) → AllNumbers xs → (zs : List f.F32) × (sort f xs ≡ some zs) × AllNumbers zs
  unfolding sort
  sort-AllNumbers [] a = ([], refl, tt)
  sort-AllNumbers (x ∷ xs) (p, a) =
      let (r, sorted, b) = sort-AllNumbers xs a in
      let (zs, inserted, d) = insert_sorted-AllNumbers x r p b in (zs, rw sorted inserted, d)

  pub set_split_points-succeeds :
      (c : Connection f) (xs : List f.F32)
      → 0 < length xs
      → AllNumbers xs
      → (low high : f.F32) × (set_split_points f c xs
          ≡ some (record c { low_split_point = low; high_split_point = high }))
  unfolding set_split_points
  set_split_points-succeeds c xs p a =
      let (zs, sorted, _) = sort-AllNumbers xs a in
      let (n, _) = sort-count f xs zs sorted in
      let (low, l) = get_elem?-some zs (length zs * 3 / 10) (omega (arith, n, p)) in
      let (high, h) = get_elem?-some zs (length zs * 7 / 10) (omega (arith, n, p)) in
      (low, high, rw (sorted, l, h) refl)
