-- ===== src/Octets.antt =====
-- What the code uses of the `octets` crate: a cursor over a byte slice. The crate is not part of
-- the repository, so its cursor is a parameter, with its documented behaviour as laws.
pub mod Example
use dmludp.Prelude.{
  ℕ, ◌<◌, ◌≤◌, ◌≡◌, List, [], ◌∷◌, ◌++◌, Option, none, some, length, drop, IsU64, from_be_bytes,
  to_be_bytes,
}
use dmludp.Error.{buffer_too_short, Result, ok, err}

-- `octets::OctetsMut`. `none` is its `BufferTooShortError`.
pub record Octets : Type 1 where
  pub Buf : Type 0
  pub with_slice : List ℕ → Buf
  -- the bytes of the slice before the cursor, and those from the cursor on
  pub behind : Buf → List ℕ
  pub ahead : Buf → List ℕ
  pub cap : Buf → ℕ
  pub get_u8 : Buf → Option (ℕ × Buf)
  pub get_u64 : Buf → Option (ℕ × Buf)
  pub put_u8 : ℕ → Buf → Option Buf
  pub put_u64 : ℕ → Buf → Option Buf

-- The documented behaviour: integers are read and written in network byte order at the cursor,
-- which moves past them; a call that does not fit fails.
pub record OctetsLaws (o : Octets) : Type 0 where
  pub with_slice_lem :
      (s : List ℕ) → (o.behind (o.with_slice s) ≡ []) × (o.ahead (o.with_slice s) ≡ s)
  pub cap_lem : (b : o.Buf) → o.cap b ≡ length (o.ahead b)
  pub get_u8_short : (b : o.Buf) → length (o.ahead b) < 1 → o.get_u8 b ≡ none
  pub get_u8_lem :
      (b : o.Buf) (x : ℕ) (rest : List ℕ)
      → o.ahead b ≡ x ∷ rest
      → (b' : o.Buf) × (o.get_u8 b ≡ some (x, b')) × (o.ahead b' ≡ rest)
  pub get_u64_short : (b : o.Buf) → length (o.ahead b) < 8 → o.get_u64 b ≡ none
  pub get_u64_lem :
      (b : o.Buf) (w rest : List ℕ)
      → length w ≡ 8
      → o.ahead b ≡ w ++ rest
      → (b' : o.Buf) × (o.get_u64 b ≡ some (from_be_bytes w, b')) × (o.ahead b' ≡ rest)
  pub put_u8_short : (v : ℕ) (b : o.Buf) → length (o.ahead b) < 1 → o.put_u8 v b ≡ none
  pub put_u8_lem :
      (v : ℕ) (b : o.Buf)
      → v < 256
      → 1 ≤ length (o.ahead b)
      → (b' : o.Buf) × (o.put_u8 v b ≡ some b')
        × (o.behind b' ≡ o.behind b ++ (v ∷ []))
        × (o.ahead b' ≡ drop 1 (o.ahead b))
  pub put_u64_short : (v : ℕ) (b : o.Buf) → length (o.ahead b) < 8 → o.put_u64 v b ≡ none
  pub put_u64_lem :
      (v : ℕ) (b : o.Buf)
      → IsU64 v
      → 8 ≤ length (o.ahead b)
      → (b' : o.Buf) × (o.put_u64 v b ≡ some b')
        × (o.behind b' ≡ o.behind b ++ to_be_bytes v)
        × (o.ahead b' ≡ drop 8 (o.ahead b))

-- Code that works on a cursor with `?`: the cursor is left where the first failing call found it.
module _ (o : Octets) where
  abbrev pub Io : Type 0 → Type 0
  Io A = o.Buf → Result A × o.Buf

  abbrev pub reading : Option (ℕ × o.Buf) → Io ℕ
  reading none b = (err buffer_too_short, b)
  reading (some (v, b')) b = (ok v, b')

  abbrev pub writing : Option o.Buf → Io (Unit {0})
  writing none b = (err buffer_too_short, b)
  writing (some b') b = (ok tt, b')

  -- `b.get_u8()?` and its like
  abbrev pub get_u8 : Io ℕ
  get_u8 b = reading (o.get_u8 b) b

  abbrev pub get_u64 : Io ℕ
  get_u64 b = reading (o.get_u64 b) b

  abbrev pub put_u8 : ℕ → Io (Unit {0})
  put_u8 v b = writing (o.put_u8 v b) b

  abbrev pub put_u64 : ℕ → Io (Unit {0})
  put_u64 v b = writing (o.put_u64 v b) b

module _ {B : Type 0} where
  abbrev pub then_run : {A C : Type 0} → Result A × B → (A → B → Result C × B) → Result C × B
  then_run (ok a, b) f = f a b
  then_run (err e, b) f = (err e, b)

  infixl 5 ◌>>=◌ ◌>>◌
  abbrev pub ◌>>=◌ : {A C : Type 0} → (B → Result A × B) → (A → B → Result C × B) → B → Result C × B
  ◌>>=◌ m f b = then_run (m b) f

  abbrev pub ◌>>◌ :
      {C : Type 0} → (B → Result (Unit {0}) × B) → (B → Result C × B) → B → Result C × B
  ◌>>◌ m k b = then_run (m b) (λ _. k)
