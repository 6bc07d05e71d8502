-- ===== src/Floats/Example.antt =====
-- A concrete `Floats`, with natural numbers for both types, to run the models on.
use Prim.Native.Nat.{compare}
use dmludp.Prelude.{
  ◌≢◌, none, ℕ, ◌+◌, ◌-◌, ◌*◌, ◌/◌, ◌^◌, ltb, leb, ◌&&◌, ◌==◌, ◌≡◌, refl, if◌then◌else◌, List, [],
  ◌∷◌, some, be_digits, length-be_digits, arith,
}
use dmludp.Floats.{Floats, FloatsLaws, is_less}

-- a decimal number, or the part before the first other character
unfoldable pub number : ℕ → List ℕ → ℕ
number n [] = n
number n (c ∷ cs) =
    let rest = number (10 * n + (c - 48)) cs in if leb 48 c && leb c 57 then rest else n

-- hundredths, rounded towards 0; a negative number is 0
abbrev pub hundredths : Floats
hundredths = record {
  F32 = ℕ;
  F64 = ℕ;
  lit32 = λ n d. n * 100 / 10 ^ d;
  lit = λ n d. n * 100 / 10 ^ d;
  add32 = λ m n. m + n;
  mul32 = λ m n. m * n / 100;
  partial_cmp = λ m n. some (compare m n);
  parse = λ w. some (100 * number 0 w);
  to_ne_bytes = λ n. be_digits 4 n;
  lt32 = ltb;
  widen = λ n. n;
  of_usize = λ n. n * 100;
  to_usize = λ n. n / 100;
  neg = λ n. 0;
  add = λ m n. m + n;
  sub = λ m n. m - n;
  mul = λ m n. m * n / 100;
  div = λ m n. m * 100 / n;
  powi = λ m n. m ^ n / 100 ^ (n - 1);
  lt = ltb;
  eq = λ m n. m == n;
}

pub hundredths-FloatsLaws : FloatsLaws hundredths
hundredths-FloatsLaws = record {
  rank = λ n. some n;
  partial_cmp_lem = λ x y. refl;
  lt32_lem = λ x y. less x y;
  length-to_ne_bytes = λ x. length-be_digits 4 x;
}
  where
    less : (x y : ℕ) → ltb x y ≡ is_less (some (compare x y))
    less x y = ground arith

-- There is no NaN.
pub rank-hundredths : (x : ℕ) → hundredths-FloatsLaws.rank x ≢ none
unfolding hundredths-FloatsLaws
rank-hundredths x e = cc
