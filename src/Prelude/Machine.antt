-- ===== src/Prelude/Machine.antt =====
-- Machine integers as `cargo build` compiles them: `u64` and `usize` are numbers below 2 ^ 64, and
-- an operation that leaves that range panics. `none` is a panic, here and in every function
-- below that returns an option of a state. (`as u64`, `as usize` and `try_into().unwrap()`
-- between the two types change nothing.)
use Prim.Native.Nat.{ℕ, ◌+◌, ◌-◌, ◌*◌, ◌≤◌, ◌<◌}
use mathlib.Core.Path.{◌≡◌, refl}
use mathlib.Core.Option.{Option, none, some}
use mathlib.Core.List.{List, ◌++◌}
use native.Mathlib.Omega.{arith}
use dmludp.Prelude.Tests.{ltb, leb, if◌then◌else◌}
use dmludp.Prelude.Lists.{length, take, drop}

abbrev pub u64_mod : ℕ
u64_mod = 0x1_0000_0000_0000_0000

abbrev pub IsU64 : ℕ → Type 0
IsU64 n = n < u64_mod

infixl 5 ◌>>=◌
abbrev pub ◌>>=◌ {ℓ κ} : {A : Type ℓ} {B : Type κ} → Option A → (A → Option B) → Option B
none >>= f = none
some a >>= f = f a

-- A chain that ends did not panic at its first step.
pub bind-some {ℓ κ} :
    {A : Type ℓ} {B : Type κ} (m : Option A) (k : A → Option B) (b : B)
    → m >>= k ≡ some b
    → (a : A) × (m ≡ some a) × (k a ≡ some b)
bind-some none k b e = cc
bind-some (some a) k b e = (a, refl, e)

-- `a + b`
abbrev pub add64 : ℕ → ℕ → Option ℕ
add64 a b = if ltb (a + b) u64_mod then some (a + b) else none

-- `a - b`
abbrev pub sub64 : ℕ → ℕ → Option ℕ
sub64 a b = if leb b a then some (a - b) else none

-- `a * b`
abbrev pub mul64 : ℕ → ℕ → Option ℕ
mul64 a b = if ltb (a * b) u64_mod then some (a * b) else none

pub add64-some : (a b : ℕ) → a + b < u64_mod → add64 a b ≡ some (a + b)
add64-some a b h = ground arith

pub sub64-some : (a b : ℕ) → b ≤ a → sub64 a b ≡ some (a - b)
sub64-some a b h = ground arith

module _ {ℓ} {A : Type ℓ} where
  -- `&xs[..n]`
  abbrev pub slice_to : List A → ℕ → Option (List A)
  slice_to xs n = if leb n (length xs) then some (take n xs) else none

  -- `&xs[n..]`
  abbrev pub slice_from : List A → ℕ → Option (List A)
  slice_from xs n = if leb n (length xs) then some (drop n xs) else none

  -- `&xs[a..b]`
  abbrev pub slice : List A → ℕ → ℕ → Option (List A)
  slice xs a b =
      if leb a b
      then (if leb b (length xs) then some (take (b - a) (drop a xs)) else none)
      else none

  -- `out[at..at + src.len()].copy_from_slice(src)`
  abbrev pub copy_at : List A → ℕ → List A → Option (List A)
  copy_at out at src =
      if leb (at + length src) (length out)
      then some (take at out ++ (src ++ drop (at + length src) out))
      else none

  pub slice_to-some : (xs : List A) (n : ℕ) → n ≤ length xs → slice_to xs n ≡ some (take n xs)
  slice_to-some xs n h = ground arith

  pub slice_from-some : (xs : List A) (n : ℕ) → n ≤ length xs → slice_from xs n ≡ some (drop n xs)
  slice_from-some xs n h = ground arith

  pub copy_at-some :
      (out : List A) (at : ℕ) (src : List A)
      → at + length src ≤ length out
      → copy_at out at src ≡ some (take at out ++ (src ++ drop (at + length src) out))
  copy_at-some out at src h = ground arith
