-- ===== src/Octets/Example.antt =====
-- A cursor with the behaviour that `OctetsLaws` states: the bytes on its two sides. It shows that
-- the laws can be met, and runs the code in tests.
use dmludp.Prelude.{
  ℕ, ◌≤◌, ◌<◌, ◌≡◌, refl, List, [], ◌∷◌, ◌++◌, Option, none, some, length, take, drop, ltb,
  if◌then◌else◌, arith, from_be_bytes, to_be_bytes, take-append_of_length, drop-append_of_length,
  length-append, lt→ltb, false,
}
use dmludp.Octets.{Octets, OctetsLaws}

abbrev pub Sides : Type 0
Sides = List ℕ × List ℕ

abbrev get_u8 : Sides → Option (ℕ × Sides)
get_u8 (w, []) = none
get_u8 (w, x ∷ a) = some (x, (w ++ (x ∷ []), a))

abbrev get_u64 : Sides → Option (ℕ × Sides)
get_u64 (w, a) =
    if ltb (length a) 8 then none else some (from_be_bytes (take 8 a), (w ++ take 8 a, drop 8 a))

abbrev put_u8 : ℕ → Sides → Option Sides
put_u8 v (w, a) = if ltb (length a) 1 then none else some (w ++ (v ∷ []), drop 1 a)

abbrev put_u64 : ℕ → Sides → Option Sides
put_u64 v (w, a) = if ltb (length a) 8 then none else some (w ++ to_be_bytes v, drop 8 a)

abbrev pub sides : Octets
sides = record {
  Buf = Sides;
  with_slice = λ s. ([], s);
  behind = λ b. b.0;
  ahead = λ b. b.1;
  cap = λ b. length b.1;
  get_u8 = get_u8;
  get_u64 = get_u64;
  put_u8 = put_u8;
  put_u64 = put_u64;
}

not_short : (n k : ℕ) → k ≤ n → ltb n k ≡ false
not_short n k h = ground arith

get_u8_short : (b : Sides) → length b.1 < 1 → get_u8 b ≡ none
get_u8_short (w, []) h = refl
get_u8_short (w, x ∷ a) h = absurd (omega arith)

get_u8_at :
    (b : Sides) (x : ℕ) (rest : List ℕ)
    → b.1 ≡ x ∷ rest
    → (b' : Sides) × (get_u8 b ≡ some (x, b')) × (b'.1 ≡ rest)
get_u8_at (w, a) x rest e = ((w ++ (x ∷ []), rest), rw e, refl)

get_u64_at :
    (b : Sides) (d rest : List ℕ)
    → length d ≡ 8
    → b.1 ≡ d ++ rest
    → (b' : Sides) × (get_u64 b ≡ some (from_be_bytes d, b')) × (b'.1 ≡ rest)
get_u64_at (w, a) d rest l e = (
  (w ++ d, rest),
  rw (
    e,
    not_short (length (d ++ rest)) 8 (omega (arith, length-append d rest)),
    take-append_of_length 8 d rest l,
    drop-append_of_length 8 d rest l,
  ),
  refl,
)

pub sides-OctetsLaws : OctetsLaws sides
sides-OctetsLaws = record {
  with_slice_lem = λ s. (refl, refl);
  cap_lem = λ b. refl;
  get_u8_short = get_u8_short;
  get_u8_lem = get_u8_at;
  get_u64_short = λ (w, a) h. rw (lt→ltb (length a) 8 h);
  get_u64_lem = get_u64_at;
  put_u8_short = λ v (w, a) h. rw (lt→ltb (length a) 1 h);
  put_u8_lem =
      λ v (w, a) u h. ((w ++ (v ∷ []), drop 1 a), rw (not_short (length a) 1 h), refl, refl);
  put_u64_short = λ v (w, a) h. rw (lt→ltb (length a) 8 h);
  put_u64_lem =
      λ v (w, a) u h. ((w ++ to_be_bytes v, drop 8 a), rw (not_short (length a) 8 h), refl, refl);
}
