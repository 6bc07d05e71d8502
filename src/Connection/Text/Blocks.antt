-- ===== src/Connection/Text/Blocks.antt =====
-- How many norms `process_string` and `data_send` keep for the bytes that they store.
use dmludp.Prelude.{
  ℕ, ◌+◌, ◌*◌, ◌/◌, ◌%◌, ◌≡◌, ap, sym, ◌∙◌, ◌==◌, Bool-cases, inl, inr, some, none, List, [], ◌∷◌,
  ◌++◌, length, length-append, get_elem?, bind-some, arith,
}
use dmludp.Floats.{Floats, FloatsLaws}
use dmludp.Connection.{Connection}
use dmludp.Connection.Text.{
  add_i32, split, retain_words, end_block, item_loop, process_string, part_loop, set_split_points,
  data_send, remove,
}

module _ (f : Floats) where
  end_block-length :
      (it : ℕ) (norm2 : f.F32) (norms copy : List f.F32)
      → length (end_block f it (norm2, norms, copy)).1 + it / 256 ≡ length norms + (it + 1) / 256
  unfolding end_block
  end_block-length it norm2 norms copy = elim (Bool-cases (it % 256 == 255)) [
    | inl ends ↦ rw ends (ground (arith, length-append norms (norm2 ∷ [])))
    | inr inside ↦ rw inside (ground arith)
  ]

  end_block-copy :
      (it : ℕ) (norm2 : f.F32) (norms copy : List f.F32)
      → norms ≡ copy
      → (end_block f it (norm2, norms, copy)).1 ≡ (end_block f it (norm2, norms, copy)).2
  unfolding end_block
  end_block-copy it norm2 norms copy e = elim (Bool-cases (it % 256 == 255)) [
    | inl ends ↦ rw ends (ap (λ xs. xs ++ (norm2 ∷ [])) e)
    | inr inside ↦ rw inside e
  ]

-- how many numbers a part of the text holds
abbrev pub number_count : List ℕ → ℕ
number_count part = elim (get_elem? (split b'[' part) 1) [
  | none ↦ 0
  | some opened ↦ elim (get_elem? (split b']' opened) 0) [
    | none ↦ 0
    | some array ↦ length (retain_words (split b' ' array))
  ]
]

-- the same for each part, to the first empty one
abbrev pub number_counts : List (List ℕ) → List ℕ
number_counts [] = []
number_counts ([] ∷ parts) = []
number_counts ((x ∷ part) ∷ parts) = number_count (x ∷ part) ∷ number_counts parts

abbrev pub sum : List ℕ → ℕ
sum [] = 0
sum (n ∷ ns) = n + sum ns

-- the norms that are kept for parts with these many numbers
abbrev pub norm_count : List ℕ → ℕ
norm_count [] = 0
norm_count (n ∷ ns) = (n + 1) / 256 + norm_count ns

-- the parts into which `data_send` cuts a text
abbrev pub parts_of : List ℕ → List (List ℕ)
parts_of text = split b'>' (remove b'\r' (remove b'"' (remove b'\n' text)))

module _ (f : Floats) (laws : FloatsLaws f) where
  item_loop-counts :
      (ws : List (List ℕ)) (it : ℕ) (bytes : List ℕ) (norm2 : f.F32) (norms copy : List f.F32)
      (bytes' : List ℕ) (norms' copy' : List f.F32)
      → item_loop f ws it bytes (norm2, norms, copy) ≡ some (bytes', norms', copy')
      → (length bytes' ≡ length bytes + 4 * length ws)
        × (length norms' + (it + 1) / 256 ≡ length norms + (it + length ws + 1) / 256)
        × (norms ≡ copy → norms' ≡ copy')
  unfolding item_loop
  item_loop-counts [] it bytes norm2 norms copy bytes' norms' copy' e =
      (ground (arith, e), ground (arith, e), λ same. cc)
  item_loop-counts (w ∷ ws) it bytes norm2 norms copy bytes' norms' copy' e =
      let (it', counted, e1) = bind-some (add_i32 it 1) _ _ e in
      let next : it' ≡ it + 1 = ground (arith, counted) in
      let (x, parsed, e2) = bind-some (f.parse w) _ _ e1 in
      let norm : f.F32 = f.add32 norm2 (f.mul32 x x) in
      let (b, n, same) =
        item_loop-counts ws it' (bytes ++ f.to_ne_bytes x) (end_block f it' (norm, norms, copy)).0
          (end_block f it' (norm, norms, copy)).1 (end_block f it' (norm, norms, copy)).2 bytes'
          norms' copy' e2 in
      (
        omega (arith, b, length-append bytes (f.to_ne_bytes x), laws.length-to_ne_bytes x),
        omega (arith, n, next, end_block-length f it' norm norms copy),
        λ q. same (end_block-copy f it' norm norms copy q),
      )

  process_string-counts :
      (c c' : Connection f) (text : List ℕ) (copy copy' : List f.F32)
      → process_string f c text copy ≡ some (c', copy')
      → (length c'.send_data ≡ length c.send_data + 4 * number_count text)
        × (length c'.norm2_vec ≡ length c.norm2_vec + (number_count text + 1) / 256)
        × (c.norm2_vec ≡ copy → c'.norm2_vec ≡ copy')
  unfolding process_string
  process_string-counts c c' text copy copy' e =
      let (opened, o, e1) = bind-some (get_elem? (split b'[' text) 1) _ _ e in
      let (array, a, e2) = bind-some (get_elem? (split b']' opened) 0) _ _ e1 in
      let ((bytes, norms, copied), run, e3) =
        bind-some
          (item_loop f (retain_words (split b' ' array)) 0 c.send_data
            (f.lit32 0 0, c.norm2_vec, copy))
          _ _ e2 in
      let (b, n, same) =
        item_loop-counts (retain_words (split b' ' array)) 0 c.send_data (f.lit32 0 0) c.norm2_vec
          copy bytes norms copied run in
      let count : number_count text ≡ length (retain_words (split b' ' array)) =
        rw (o, number_count, a) in
      let stored : c'.send_data ≡ bytes = ground arith in
      let kept : c'.norm2_vec ≡ norms = ground arith in
      let copies : copied ≡ copy' = ground arith in
      (
        omega (arith, ap length stored, b, count),
        omega (arith, ap length kept, n, count),
        λ q. kept ∙ same q ∙ copies,
      )

  pub part_loop-counts :
      (parts : List (List ℕ)) (c c' : Connection f) (copy copy' : List f.F32)
      → part_loop f parts c copy ≡ some (c', copy')
      → (length c'.send_data ≡ length c.send_data + 4 * sum (number_counts parts))
        × (length c'.norm2_vec ≡ length c.norm2_vec + norm_count (number_counts parts))
        × (c.norm2_vec ≡ copy → c'.norm2_vec ≡ copy')
  unfolding part_loop
  part_loop-counts [] c c' copy copy' e =
      let same : c ≡ c' = cc in
      let copies : copy ≡ copy' = cc in
      (
        omega (arith, ap (λ x. length x.send_data) same),
        omega (arith, ap (λ x. length x.norm2_vec) same),
        λ q. sym (ap (λ x. x.norm2_vec) same) ∙ q ∙ copies,
      )
  part_loop-counts ([] ∷ parts) c c' copy copy' e =
      let same : c ≡ c' = cc in
      let copies : copy ≡ copy' = cc in
      (
        omega (arith, ap (λ x. length x.send_data) same),
        omega (arith, ap (λ x. length x.norm2_vec) same),
        λ q. sym (ap (λ x. x.norm2_vec) same) ∙ q ∙ copies,
      )
  part_loop-counts ((x ∷ part) ∷ parts) c c' copy copy' e =
      let ((c1, copy1), first, e1) = bind-some (process_string f c (x ∷ part) copy) _ _ e in
      let (b, n, same) = process_string-counts c c1 (x ∷ part) copy copy1 first in
      let (b', n', same') = part_loop-counts parts c1 c' copy1 copy' e1 in
      (omega (arith, b, b'), omega (arith, n, n'), λ q. same' (same q))

  pub set_split_points-fields :
      (c c' : Connection f) (copy : List f.F32)
      → set_split_points f c copy ≡ some c'
      → (c'.send_data ≡ c.send_data) × (c'.norm2_vec ≡ c.norm2_vec)
  unfolding set_split_points
  set_split_points-fields c c' copy e = ground arith

  -- For a text whose parts hold n₁, n₂, … numbers, `data_send` stores 4 bytes for each number, and
  -- (nᵢ + 1) / 256 norms for each part. (Condition: it does not panic.)
  pub data_send-counts :
      (c c' : Connection f) (text : List ℕ)
      → data_send f c text ≡ some c'
      → (length c'.send_data ≡ 4 * sum (number_counts (parts_of text)))
        × (length c'.norm2_vec ≡ norm_count (number_counts (parts_of text)))
  unfolding data_send
  data_send-counts c c' text e =
      let ((c2, copy), run, e1) = bind-some (part_loop f (parts_of text) _ []) _ _ e in
      let (b, n, _) = part_loop-counts (parts_of text) _ c2 [] copy run in
      let (p, q) = set_split_points-fields c2 c' copy e1 in
      (ap length p ∙ b ∙ omega arith, ap length q ∙ n ∙ omega arith)
