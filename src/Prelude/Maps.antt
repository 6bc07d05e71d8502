-- ===== src/Prelude/Maps.antt =====
-- `BTreeMap<u64, V>` as the list of its entries in ascending order of keys, and `HashMap<u64, V>`
-- as a list of entries.
use Prim.Native.Nat.{ℕ, ◌<◌}
use mathlib.Core.Path.{◌≡◌, refl}
use mathlib.Core.Logic.{◌≢◌}
use mathlib.Core.Bool.{Bool, true, false}
use mathlib.Core.Option.{Option, none, some}
use mathlib.Core.List.{List, [], ◌∷◌, ◌++◌}
use native.Mathlib.Omega.{arith}
use dmludp.Prelude.Tests.{ltb, ◌==◌, if◌then◌else◌}

module _ {ℓ} {V : Type ℓ} where
  unfoldable pub lookup : ℕ → List (ℕ × V) → Option V
  lookup k [] = none
  lookup k ((j, v) ∷ m) = if j == k then some v else lookup k m

  unfoldable pub contains_key : ℕ → List (ℕ × V) → Bool
  contains_key k [] = false
  contains_key k ((j, v) ∷ m) = if j == k then true else contains_key k m

  -- `HashMap::insert`: the order of entries has no meaning.
  unfoldable pub hash_insert : ℕ → V → List (ℕ × V) → List (ℕ × V)
  hash_insert k v [] = (k, v) ∷ []
  hash_insert k v ((j, w) ∷ m) = if j == k then (k, v) ∷ m else (j, w) ∷ hash_insert k v m

  -- `BTreeMap::insert`
  unfoldable pub tree_insert : ℕ → V → List (ℕ × V) → List (ℕ × V)
  tree_insert k v [] = (k, v) ∷ []
  tree_insert k v ((j, w) ∷ m) =
      if j == k
      then (k, v) ∷ m
      else if ltb k j
      then (k, v) ∷ (j, w) ∷ m
      else (j, w) ∷ tree_insert k v m

  -- `if let Some(x) = m.get_mut(&k) { *x = v }`
  unfoldable pub update : ℕ → V → List (ℕ × V) → List (ℕ × V)
  update k v [] = []
  update k v ((j, w) ∷ m) = if j == k then (j, v) ∷ m else (j, w) ∷ update k v m

  unfoldable pub last_key : List (ℕ × V) → Option ℕ
  last_key [] = none
  last_key ((j, v) ∷ []) = some j
  last_key ((j, v) ∷ (k, w) ∷ m) = last_key ((k, w) ∷ m)

  abbrev pub keys : List (ℕ × V) → List ℕ
  keys [] = []
  keys ((j, v) ∷ m) = j ∷ keys m

  abbrev pub values : List (ℕ × V) → List V
  values [] = []
  values ((j, v) ∷ m) = v ∷ values m

  pub contains_key-lookup :
      (k : ℕ) (m : List (ℕ × V))
      → contains_key k m ≡ elim (lookup k m) [ none ↦ false | some _ ↦ true ]
  unfolding contains_key lookup
  contains_key-lookup k [] = refl
  contains_key-lookup k ((j, v) ∷ m) = ground (arith, contains_key-lookup k m)

  pub lookup-hash_insert :
      (k j : ℕ) (v : V) (m : List (ℕ × V))
      → lookup j (hash_insert k v m) ≡ (if k == j then some v else lookup j m)
  unfolding lookup hash_insert
  lookup-hash_insert k j v [] = refl
  lookup-hash_insert k j v ((i, w) ∷ m) = ground (arith, lookup-hash_insert k j v m)

  -- Holds of a map in order, and of any other list of entries.
  pub lookup-tree_insert_self :
      (k : ℕ) (v : V) (m : List (ℕ × V)) → lookup k (tree_insert k v m) ≡ some v
  unfolding lookup tree_insert
  lookup-tree_insert_self k v [] = ground arith
  lookup-tree_insert_self k v ((i, w) ∷ m) = ground (arith, lookup-tree_insert_self k v m)

  pub lookup-tree_insert_ne :
      (k j : ℕ) (v : V) (m : List (ℕ × V)) → k ≢ j → lookup j (tree_insert k v m) ≡ lookup j m
  unfolding lookup tree_insert
  lookup-tree_insert_ne k j v [] h = ground arith
  lookup-tree_insert_ne k j v ((i, w) ∷ m) h = ground (arith, lookup-tree_insert_ne k j v m h)

  pub keys-update : (k : ℕ) (v : V) (m : List (ℕ × V)) → keys (update k v m) ≡ keys m
  unfolding update
  keys-update k v [] = refl
  keys-update k v ((i, w) ∷ m) = ground (arith, keys-update k v m)

  -- Every key of the map is below `k`.
  abbrev pub KeysBelow : ℕ → List (ℕ × V) → Type 0
  KeysBelow k [] = Unit
  KeysBelow k ((j, v) ∷ m) = (j < k) × KeysBelow k m

  -- A key above all others goes to the end.
  pub tree_insert-append :
      (k : ℕ) (v : V) (m : List (ℕ × V)) → KeysBelow k m → tree_insert k v m ≡ m ++ ((k, v) ∷ [])
  unfolding tree_insert
  tree_insert-append k v [] h = refl
  tree_insert-append k v ((j, w) ∷ m) (hj, h) = ground (arith, tree_insert-append k v m h)
