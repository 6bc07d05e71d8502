-- ===== src/Connection/Text.antt =====
-- `Connection::data_send` and `process_string` of src/lib.rs: the application hands its numbers over
-- as a text, which is taken as the list of its characters. `none` is a panic.
pub mod Blocks
pub mod Tail
pub mod Order
pub mod Classes
pub mod Printed
pub mod Sorted
pub mod Stored
mod Tests
use Prim.Native.Nat.{Ordering}
use dmludp.Prelude.{
  ℕ, ◌+◌, ◌*◌, ◌/◌, ◌%◌, ◌==◌, ltb, Bool, true, false, if◌then◌else◌, Option, some, none, List, [],
  ◌∷◌, ◌++◌, length, get_elem?, ◌>>=◌,
}
use dmludp.Floats.{Floats}
use dmludp.SendBuf.{is_nil}
use dmludp.Connection.{Connection}

-- `replace` of one character by nothing
unfoldable pub remove : ℕ → List ℕ → List ℕ
remove c [] = []
remove c (x ∷ xs) = let rest = remove c xs in if x == c then rest else x ∷ rest

-- a character in front of the first piece
abbrev pub extend : ℕ → List (List ℕ) → List (List ℕ)
extend x [] = (x ∷ []) ∷ []
extend x (p ∷ ps) = (x ∷ p) ∷ ps

-- `split` at one character: there is always a first piece.
unfoldable pub split : ℕ → List ℕ → List (List ℕ)
split c [] = [] ∷ []
split c (x ∷ xs) = let rest = split c xs in if x == c then [] ∷ rest else extend x rest

-- `retain(|&x| x != "")`
unfoldable pub retain_words : List (List ℕ) → List (List ℕ)
retain_words [] = []
retain_words (w ∷ ws) = let rest = retain_words ws in if is_nil w then rest else w ∷ rest

-- the counter `it`, an `i32`
abbrev pub i32_max : ℕ
i32_max = 0x7fff_ffff

abbrev pub add_i32 : ℕ → ℕ → Option ℕ
add_i32 a b = if ltb i32_max (a + b) then none else some (a + b)

-- `sort_by(|a, b| a.partial_cmp(b).unwrap())`, which is stable
module _ (f : Floats) where
  -- where to put `x` that compares so with the first of `y ∷ ys`; `rest` has it among `ys`
  unfoldable pub place :
      Ordering → f.F32 → f.F32 → List f.F32 → Option (List f.F32) → Option (List f.F32)
  place Ordering.gt x y ys rest = do zs ← rest; some (y ∷ zs)
  place Ordering.lt x y ys rest = some (x ∷ y ∷ ys)
  place Ordering.eq x y ys rest = some (x ∷ y ∷ ys)

  unfoldable pub insert_sorted : f.F32 → List f.F32 → Option (List f.F32)
  unfolding place
  insert_sorted x [] = some (x ∷ [])
  insert_sorted x (y ∷ ys) =
      let rest = insert_sorted x ys in do order ← f.partial_cmp x y; place order x y ys rest

  unfoldable pub sort : List f.F32 → Option (List f.F32)
  unfolding insert_sorted
  sort [] = some []
  sort (x ∷ xs) = do rest ← sort xs; insert_sorted x rest

  -- the end of a round of the loop in `process_string`: the sum, the norms of `self` and the copy
  abbrev pub Norms : Type 0
  Norms = f.F32 × List f.F32 × List f.F32

  unfoldable pub end_block : ℕ → Norms → Norms
  end_block it (norm2, norms, copy) =
      if it % 256 == 255
      then (f.lit32 0 0, norms ++ (norm2 ∷ []), copy ++ (norm2 ∷ []))
      else (norm2, norms, copy)

  -- The loop of `process_string`, with `send_data`, `norm2_vec` and `norm2_tmp`.
  unfoldable pub item_loop :
      List (List ℕ) → ℕ → List ℕ → Norms → Option (List ℕ × List f.F32 × List f.F32)
  unfolding end_block
  item_loop [] it bytes (norm2, norms, copy) = some (bytes, norms, copy)
  item_loop (w ∷ ws) it bytes (norm2, norms, copy) = do
    it' ← add_i32 it 1
    my_float ← f.parse w
    item_loop ws it' (bytes ++ f.to_ne_bytes my_float)
        (end_block it' (f.add32 norm2 (f.mul32 my_float my_float), norms, copy))

  -- Returns the state and `norm2_tmp`.
  unfoldable pub process_string :
      Connection f → List ℕ → List f.F32 → Option (Connection f × List f.F32)
  unfolding split retain_words item_loop
  process_string c test_data norm2_tmp = do
    opened ← get_elem? (split b'[' test_data) 1
    array ← get_elem? (split b']' opened) 0
    (bytes, norms, copy) ←
        item_loop (retain_words (split b' ' array)) 0 c.send_data
          (f.lit32 0 0, c.norm2_vec, norm2_tmp)
    some (record c { send_data = bytes; norm2_vec = norms }, copy)

  -- The loop of `data_send`, which an empty part ends.
  unfoldable pub part_loop :
      List (List ℕ) → Connection f → List f.F32 → Option (Connection f × List f.F32)
  unfolding process_string
  part_loop [] c norm2_tmp = some (c, norm2_tmp)
  part_loop ([] ∷ parts) c norm2_tmp = some (c, norm2_tmp)
  part_loop ((x ∷ part) ∷ parts) c norm2_tmp = do
    (c1, norm2_tmp1) ← process_string c (x ∷ part) norm2_tmp
    part_loop parts c1 norm2_tmp1

  -- `data_send` behind the loop
  unfoldable pub set_split_points : Connection f → List f.F32 → Option (Connection f)
  unfolding sort
  set_split_points c norm2_tmp = do
    sorted ← sort norm2_tmp
    low ← get_elem? sorted (length sorted * 3 / 10)
    high ← get_elem? sorted (length sorted * 7 / 10)
    some (record c { low_split_point = low; high_split_point = high })

  unfoldable pub data_send : Connection f → List ℕ → Option (Connection f)
  unfolding remove split part_loop set_split_points
  data_send c str_buf = do
    let output = remove b'\r' (remove b'"' (remove b'\n' str_buf))
    let c1 = record c {
      norm2_vec = [];
      send_data = [];
      low_split_point = f.lit32 0 0;
      high_split_point = f.lit32 0 0;
    }
    (c2, norm2_tmp) ← part_loop (split b'>' output) c1 []
    set_split_points c2 norm2_tmp
