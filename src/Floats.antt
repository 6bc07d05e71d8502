-- ===== src/Floats.antt =====
-- What the code uses of `f32` and `f64`. The theory has no floating-point numbers, so the two types
-- and their operations are a parameter.
pub mod Example
use Prim.Native.Nat.{compare, Ordering}
use dmludp.Prelude.{ℕ, Bool, true, false, List, Option, none, some, length, ◌≡◌}

pub record Floats : Type 1 where
  pub F32 : Type 0
  pub F64 : Type 0
  -- a literal: `lit 2294 2` is 22.94
  pub lit32 : ℕ → ℕ → F32
  pub lit : ℕ → ℕ → F64
  pub add32 : F32 → F32 → F32
  pub mul32 : F32 → F32 → F32
  pub partial_cmp : F32 → F32 → Option Ordering
  -- `FromStr`, on the characters of the text
  pub parse : List ℕ → Option F32
  pub to_ne_bytes : F32 → List ℕ
  pub lt32 : F32 → F32 → Bool
  -- `w as f64`, `n as f64`, and `x as usize`, which saturates
  pub widen : F32 → F64
  pub of_usize : ℕ → F64
  pub to_usize : F64 → ℕ
  pub neg : F64 → F64
  pub add : F64 → F64 → F64
  pub sub : F64 → F64 → F64
  pub mul : F64 → F64 → F64
  pub div : F64 → F64 → F64
  pub powi : F64 → ℕ → F64
  pub lt : F64 → F64 → Bool
  pub eq : F64 → F64 → Bool

abbrev pub compare_ranks : Option ℕ → Option ℕ → Option Ordering
compare_ranks (some m) (some n) = some (compare m n)
compare_ranks _ _ = none

abbrev pub is_less : Option Ordering → Bool
is_less (some Ordering.lt) = true
is_less _ = false

-- The documented behaviour of `f32`: it has four bytes, its values but the NaNs are in order, and a
-- NaN compares with nothing.
pub record FloatsLaws (f : Floats) : Type 0 where
  pub rank : f.F32 → Option ℕ
  pub partial_cmp_lem : (x y : f.F32) → f.partial_cmp x y ≡ compare_ranks (rank x) (rank y)
  pub lt32_lem : (x y : f.F32) → f.lt32 x y ≡ is_less (f.partial_cmp x y)
  pub length-to_ne_bytes : (x : f.F32) → length (f.to_ne_bytes x) ≡ 4
