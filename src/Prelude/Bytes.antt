-- ===== src/Prelude/Bytes.antt =====
-- `u64::to_be_bytes` and `u64::from_be_bytes` of Rust's core library.
use Prim.Native.Nat.{ℕ, zero, suc, ◌+◌, ◌*◌, ◌/◌, ◌%◌, ◌^◌, ◌<◌}
use mathlib.Core.Path.{◌≡◌, refl}
use mathlib.Core.List.{List, [], ◌∷◌, ◌++◌}
use native.Mathlib.Omega.{arith}
use dmludp.Prelude.Lists.{length, length-append}
use dmludp.Prelude.Machine.{u64_mod}

-- The last `k` digits of `v` to base 256, the highest first.
unfoldable pub be_digits : ℕ → ℕ → List ℕ
be_digits zero v = []
be_digits (suc k) v = be_digits k (v / 256) ++ ((v % 256) ∷ [])

abbrev pub to_be_bytes : ℕ → List ℕ
to_be_bytes v = be_digits 8 v

be_from : ℕ → List ℕ → ℕ
be_from acc [] = acc
be_from acc (b ∷ bs) = be_from (acc * 256 + b) bs

unfoldable pub from_be_bytes : List ℕ → ℕ
unfolding be_from
from_be_bytes bs = be_from 0 bs

be_from-append : (acc b : ℕ) (bs : List ℕ) → be_from acc (bs ++ (b ∷ [])) ≡ be_from acc bs * 256 + b
unfolding be_from
be_from-append acc b [] = refl
be_from-append acc b (c ∷ bs) = be_from-append (acc * 256 + c) b bs

be_from-be_digits : (k v : ℕ) → v < 256 ^ k → be_from 0 (be_digits k v) ≡ v
unfolding be_digits
be_from-be_digits zero v h = unfold be_from in omega arith
be_from-be_digits (suc k) v h = omega (
  arith,
  be_from-append 0 (v % 256) (be_digits k (v / 256)),
  be_from-be_digits k (v / 256) (omega arith),
)

pub length-be_digits : (k v : ℕ) → length (be_digits k v) ≡ k
unfolding be_digits
length-be_digits zero v = refl
length-be_digits (suc k) v =
    omega
      (arith, length-append (be_digits k (v / 256)) ((v % 256) ∷ []), length-be_digits k (v / 256))

-- Eight bytes carry every u64.
pub from_be_bytes-to_be_bytes : (v : ℕ) → v < u64_mod → from_be_bytes (to_be_bytes v) ≡ v
unfolding from_be_bytes
from_be_bytes-to_be_bytes v h = be_from-be_digits 8 v (omega arith)
