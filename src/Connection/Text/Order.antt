-- ===== src/Connection/Text/Order.antt =====
-- The sort of `data_send`: it keeps the values, and brings them into order.
use Prim.Native.Nat.{Ordering}
use dmludp.Prelude.{
  ℕ, suc, ◌+◌, ◌≡◌, refl, subst, ap, sym, ◌∙◌, Bool, true, false, if◌then◌else◌, Option, some, none,
  List, [], ◌∷◌, length, bind-some, arith,
}
use mathlib.Core.Option.{some-injective}
use dmludp.Floats.{Floats, FloatsLaws, compare_ranks, is_less}
use dmludp.Connection.Text.{place, insert_sorted, sort}

-- how many values a test accepts
abbrev pub count {ℓ} : {A : Type ℓ} → (A → Bool) → List A → ℕ
count p [] = 0
count p (x ∷ xs) = (if p x then 1 else 0) + count p xs

module _ (f : Floats) where
  -- `zs` is `ys` with `x` among its values.
  abbrev With : f.F32 → List f.F32 → List f.F32 → Type 0
  With x ys zs =
      (length zs ≡ suc (length ys))
      × ((p : f.F32 → Bool) → count p zs ≡ (if p x then 1 else 0) + count p ys)

  With-here : (x : f.F32) (ys zs : List f.F32) → x ∷ ys ≡ zs → With x ys zs
  With-here x ys zs e = (sym (ap length e), λ p. sym (ap (count p) e))

  place-With :
      (o : Ordering) (x y : f.F32) (ys zs : List f.F32) (rest : Option (List f.F32))
      → ((r : List f.F32) → rest ≡ some r → With x ys r)
      → place f o x y ys rest ≡ some zs
      → With x (y ∷ ys) zs
  unfolding place
  place-With Ordering.lt x y ys zs rest ih e = With-here x (y ∷ ys) zs (cc)
  place-With Ordering.eq x y ys zs rest ih e = With-here x (y ∷ ys) zs (cc)
  place-With Ordering.gt x y ys zs rest ih e =
      let (r, inserted, e1) = bind-some rest _ _ e in
      let (l, n) = ih r inserted in
      let same : y ∷ r ≡ zs = cc in
      (sym (ap length same) ∙ omega (arith, l), λ p. sym (ap (count p) same) ∙ omega (arith, n p))

  insert_sorted-With :
      (x : f.F32) (ys zs : List f.F32) → insert_sorted f x ys ≡ some zs → With x ys zs
  unfolding insert_sorted
  insert_sorted-With x [] zs e = With-here x [] zs (cc)
  insert_sorted-With x (y ∷ ys) zs e =
      let (o, compared, e1) = bind-some (f.partial_cmp x y) _ _ e in
      place-With o x y ys zs (insert_sorted f x ys) (insert_sorted-With x ys) e1

  -- The sort keeps the values, each as often as it stands there.
  pub sort-count :
      (xs zs : List f.F32)
      → sort f xs ≡ some zs
      → (length zs ≡ length xs) × ((p : f.F32 → Bool) → count p zs ≡ count p xs)
  unfolding sort
  sort-count [] zs e =
      let same : [] ≡ zs = cc in (sym (ap length same), λ p. sym (ap (count p) same))
  sort-count (x ∷ xs) zs e =
      let (rest, sorted, e1) = bind-some (sort f xs) _ _ e in
      let (l, n) = sort-count xs rest sorted in
      let (l', n') = insert_sorted-With x rest zs e1 in
      (omega (arith, l, l'), λ p. omega (arith, n p, n' p))

-- the comparisons of two ranks
abbrev less : Option ℕ → Option ℕ → Bool
less m n = is_less (compare_ranks m n)

abbrev pub is_at_most : Option Ordering → Bool
is_at_most (some Ordering.lt) = true
is_at_most (some Ordering.eq) = true
is_at_most _ = false

abbrev at_most : Option ℕ → Option ℕ → Bool
at_most m n = is_at_most (compare_ranks m n)

at_most_trans : (m n k : Option ℕ) → at_most m n ≡ true → at_most n k ≡ true → at_most m k ≡ true
at_most_trans none n k p q = cc
at_most_trans (some a) none k p q = cc
at_most_trans (some a) (some b) none p q = cc
at_most_trans (some a) (some b) (some c) p q = ground (arith, p, q)

at_most_flip : (m n : Option ℕ) → compare_ranks m n ≡ some Ordering.gt → at_most n m ≡ true
at_most_flip none n e = cc
at_most_flip (some a) none e = cc
at_most_flip (some a) (some b) e = ground arith

less-at_most : (k m n : Option ℕ) → less k m ≡ true → at_most m n ≡ true → less k n ≡ true
less-at_most none m n p q = cc
less-at_most (some a) none n p q = cc
less-at_most (some a) (some b) none p q = cc
less-at_most (some a) (some b) (some c) p q = ground (arith, p, q)

at_most-less : (m n : Option ℕ) → at_most m n ≡ true → less n m ≡ false
at_most-less none n p = cc
at_most-less (some a) none p = cc
at_most-less (some a) (some b) p = ground (arith, p)

less_irrefl : (m : Option ℕ) → less m m ≡ false
less_irrefl none = refl
less_irrefl (some a) = ground arith

module _ (f : Floats) (laws : FloatsLaws f) where
  -- `x` is not behind `y` in the order.
  abbrev pub AtMost : f.F32 → f.F32 → Type 0
  AtMost x y = is_at_most (f.partial_cmp x y) ≡ true

  AtMost-trans : (x y z : f.F32) → AtMost x y → AtMost y z → AtMost x z
  AtMost-trans x y z p q = rw (laws.partial_cmp_lem x z) (
      at_most_trans (laws.rank x) (laws.rank y) (laws.rank z)
        (sym (ap is_at_most (laws.partial_cmp_lem x y)) ∙ p)
        (sym (ap is_at_most (laws.partial_cmp_lem y z)) ∙ q))

  AtMost-flip : (x y : f.F32) → f.partial_cmp x y ≡ some Ordering.gt → AtMost y x
  AtMost-flip x y e =
      rw (laws.partial_cmp_lem y x)
        (at_most_flip (laws.rank x) (laws.rank y) (sym (laws.partial_cmp_lem x y) ∙ e))

  pub lt32-AtMost : (x y : f.F32) → AtMost x y → f.lt32 y x ≡ false
  lt32-AtMost x y p =
      rw (laws.lt32_lem y x, laws.partial_cmp_lem y x)
        (at_most-less (laws.rank x) (laws.rank y)
          (sym (ap is_at_most (laws.partial_cmp_lem x y)) ∙ p))

  pub lt32_trans : (x y z : f.F32) → f.lt32 x y ≡ true → AtMost y z → f.lt32 x z ≡ true
  lt32_trans x y z p q =
      rw (laws.lt32_lem x z, laws.partial_cmp_lem x z)
        (less-at_most (laws.rank x) (laws.rank y) (laws.rank z)
          (sym (laws.lt32_lem x y ∙ ap is_less (laws.partial_cmp_lem x y)) ∙ p)
          (sym (ap is_at_most (laws.partial_cmp_lem y z)) ∙ q))

  pub lt32_irrefl : (x : f.F32) → f.lt32 x x ≡ false
  lt32_irrefl x = rw (laws.lt32_lem x x, laws.partial_cmp_lem x x) (less_irrefl (laws.rank x))

  abbrev pub AllAtMost : f.F32 → List f.F32 → Type 0
  AllAtMost x [] = Unit
  AllAtMost x (y ∷ ys) = AtMost x y × AllAtMost x ys

  abbrev pub Ordered : List f.F32 → Type 0
  Ordered [] = Unit
  Ordered (x ∷ xs) = AllAtMost x xs × Ordered xs

  AllAtMost-trans : (x y : f.F32) (zs : List f.F32) → AtMost x y → AllAtMost y zs → AllAtMost x zs
  AllAtMost-trans x y [] p a = tt
  AllAtMost-trans x y (z ∷ zs) p (q, a) = (AtMost-trans x y z p q, AllAtMost-trans x y zs p a)

  place-AllAtMost :
      (w : f.F32) (o : Ordering) (x y : f.F32) (ys zs : List f.F32) (rest : Option (List f.F32))
      → ((r : List f.F32) → rest ≡ some r → AllAtMost w r)
      → AtMost w x
      → AllAtMost w (y ∷ ys)
      → place f o x y ys rest ≡ some zs
      → AllAtMost w zs
  unfolding place
  place-AllAtMost w Ordering.lt x y ys zs rest ih p a e =
      subst (AllAtMost w) (some-injective _ _ e) (p, a)
  place-AllAtMost w Ordering.eq x y ys zs rest ih p a e =
      subst (AllAtMost w) (some-injective _ _ e) (p, a)
  place-AllAtMost w Ordering.gt x y ys zs rest ih p (q, a) e =
      let (r, inserted, e1) = bind-some rest _ _ e in
      subst (AllAtMost w) (some-injective _ _ e1) (q, ih r inserted)

  insert_sorted-AllAtMost :
      (w x : f.F32) (ys zs : List f.F32)
      → AtMost w x
      → AllAtMost w ys
      → insert_sorted f x ys ≡ some zs
      → AllAtMost w zs
  unfolding insert_sorted
  insert_sorted-AllAtMost w x [] zs p a e = subst (AllAtMost w) (some-injective _ _ e) (p, tt)
  insert_sorted-AllAtMost w x (y ∷ ys) zs p a e =
      let (o, compared, e1) = bind-some (f.partial_cmp x y) _ _ e in
      place-AllAtMost w o x y ys zs (insert_sorted f x ys)
        (λ r. insert_sorted-AllAtMost w x ys r p a.1) p a e1

  place-Ordered :
      (o : Ordering) (x y : f.F32) (ys zs : List f.F32)
      → f.partial_cmp x y ≡ some o
      → ((r : List f.F32) → insert_sorted f x ys ≡ some r → Ordered r)
      → Ordered (y ∷ ys)
      → place f o x y ys (insert_sorted f x ys) ≡ some zs
      → Ordered zs
  unfolding place
  place-Ordered Ordering.lt x y ys zs c ih (a, s) e =
      let p : AtMost x y = rw c refl in
      subst Ordered (some-injective _ _ e) ((p, AllAtMost-trans x y ys p a), (a, s))
  place-Ordered Ordering.eq x y ys zs c ih (a, s) e =
      let p : AtMost x y = rw c refl in
      subst Ordered (some-injective _ _ e) ((p, AllAtMost-trans x y ys p a), (a, s))
  place-Ordered Ordering.gt x y ys zs c ih (a, s) e =
      let (r, inserted, e1) = bind-some (insert_sorted f x ys) _ _ e in
      subst Ordered (some-injective _ _ e1)
        (insert_sorted-AllAtMost y x ys r (AtMost-flip x y c) a inserted, ih r inserted)

  insert_sorted-Ordered :
      (x : f.F32) (ys zs : List f.F32) → Ordered ys → insert_sorted f x ys ≡ some zs → Ordered zs
  unfolding insert_sorted
  insert_sorted-Ordered x [] zs s e = subst Ordered (some-injective _ _ e) (tt, tt)
  insert_sorted-Ordered x (y ∷ ys) zs s e =
      let (o, compared, e1) = bind-some (f.partial_cmp x y) _ _ e in
      place-Ordered o x y ys zs compared (λ r. insert_sorted-Ordered x ys r s.1) s e1

  -- The sort brings the values into order.
  pub sort-Ordered : (xs zs : List f.F32) → sort f xs ≡ some zs → Ordered zs
  unfolding sort
  sort-Ordered [] zs e = subst Ordered (some-injective _ _ e) tt
  sort-Ordered (x ∷ xs) zs e =
      let (rest, sorted, e1) = bind-some (sort f xs) _ _ e in
      insert_sorted-Ordered x rest zs (sort-Ordered xs rest sorted) e1
