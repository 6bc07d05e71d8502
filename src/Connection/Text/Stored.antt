-- ===== src/Connection/Text/Stored.antt =====
-- What `data_send` stores for a list of numbers, and that it does not panic.
use dmludp.Prelude.{
  ℕ, ◌+◌, ◌-◌, ◌%◌, ◌≤◌, ◌<◌, ◌≡◌, refl, ap, ◌∙◌, ◌==◌, true, false, Bool-cases, inl, inr,
  if◌then◌else◌, Option, some, none, List, [], ◌∷◌, ◌++◌, length, append-nil, append_assoc, arith,
  ◌>>=◌,
}
use dmludp.Floats.{Floats, FloatsLaws}
use dmludp.Connection.{Connection}
use dmludp.Connection.Text.{
  i32_max, add_i32, end_block, item_loop, process_string, part_loop, set_split_points, data_send,
}
use dmludp.Connection.Text.Sorted.{AllNumbers, set_split_points-succeeds}
use dmludp.Connection.Text.Printed.{
  AllWords, printed, parts_of-printed, opened-printed, closed-printed, words-printed,
}

module _ (f : Floats) where
  -- the words are texts of these numbers
  abbrev pub Parses : List (List ℕ) → List f.F32 → Type 0
  Parses [] [] = Unit
  Parses (w ∷ ws) (v ∷ vs) = (f.parse w ≡ some v) × Parses ws vs
  Parses [] (v ∷ vs) = ⊥
  Parses (w ∷ ws) [] = ⊥

  abbrev pub bytes_of : List f.F32 → List ℕ
  bytes_of [] = []
  bytes_of (v ∷ vs) = f.to_ne_bytes v ++ bytes_of vs

  -- The sums of squares, of the first `k` numbers and then of every 256; `acc` is the sum so far, and
  -- a last block that is not full has none.
  abbrev pub block_norms : ℕ → f.F32 → List f.F32 → List f.F32
  block_norms k acc [] = []
  block_norms k acc (v ∷ vs) =
      let next = f.add32 acc (f.mul32 v v) in
      let rest =
        block_norms (if k == 1 then 256 else k - 1) (if k == 1 then f.lit32 0 0 else next) vs in
      if k == 1 then next ∷ rest else rest

  block_norms-some :
      (k : ℕ) (acc : f.F32) (vs : List f.F32)
      → 1 ≤ k
      → k ≤ length vs
      → 0 < length (block_norms k acc vs)
  block_norms-some k acc [] p h = absurd (omega (arith, p, h))
  block_norms-some k acc (v ∷ vs) p h = elim (Bool-cases (k == 1)) [
    | inl last ↦ rw last (omega arith)
    | inr more ↦ rw more (block_norms-some (k - 1) _ vs (ground arith) (ground arith))
  ]

  add_i32-some : (it : ℕ) → it + 1 ≤ i32_max → add_i32 it 1 ≡ some (it + 1)
  add_i32-some it h = ground (arith, h)

  item_loop_lem :
      (ws : List (List ℕ)) (vs : List f.F32) (it k : ℕ) (bytes : List ℕ) (acc : f.F32)
      (norms copy : List f.F32)
      → Parses ws vs
      → it + length ws ≤ i32_max
      → 1 ≤ k
      → k ≤ 256
      → (it + k) % 256 ≡ 255
      → item_loop f ws it bytes (acc, norms, copy)
        ≡ some (bytes ++ bytes_of vs, norms ++ block_norms k acc vs, copy ++ block_norms k acc vs)
  unfolding item_loop end_block
  item_loop_lem [] [] it k bytes acc norms copy p h low high at =
      rw (append-nil bytes, append-nil norms, append-nil copy) refl
  item_loop_lem [] (v ∷ vs) it k bytes acc norms copy p h low high at = absurd p
  item_loop_lem (w ∷ ws) [] it k bytes acc norms copy p h low high at = absurd p
  item_loop_lem (w ∷ ws) (v ∷ vs) it k bytes acc norms copy (p, ps) h low high at =
      let next : f.F32 = f.add32 acc (f.mul32 v v) in
      elim (Bool-cases (k == 1)) [
        | inl last ↦
            let ends : (it + 1) % 256 == 255 ≡ true = ground arith in
            rw (add_i32-some it (omega (arith, h)), p, ends, last)
              (item_loop_lem ws vs (it + 1) 256 (bytes ++ f.to_ne_bytes v) (f.lit32 0 0)
                  (norms ++ (next ∷ [])) (copy ++ (next ∷ [])) ps (omega (arith, h)) (omega arith)
                  (omega arith) (ground arith)
                ∙ simp append_assoc)
        | inr more ↦
            let inside : (it + 1) % 256 == 255 ≡ false = ground arith in
            rw (add_i32-some it (omega (arith, h)), p, inside, more)
              (item_loop_lem ws vs (it + 1) (k - 1) (bytes ++ f.to_ne_bytes v) next norms copy ps
                  (omega (arith, h)) (ground arith) (ground arith) (ground arith)
                ∙ simp append_assoc)
      ]

  process_string_lem :
      (c : Connection f) (ws : List (List ℕ)) (vs copy : List f.F32)
      → AllWords ws
      → Parses ws vs
      → length ws ≤ i32_max
      → process_string f c (printed ws) copy
        ≡ some (
          record c {
            send_data = c.send_data ++ bytes_of vs;
            norm2_vec = c.norm2_vec ++ block_norms 255 (f.lit32 0 0) vs;
          },
          copy ++ block_norms 255 (f.lit32 0 0) vs,
        )
  unfolding process_string
  process_string_lem c ws vs copy a p h =
      rw
        (
          opened-printed ws a,
          closed-printed ws a,
          words-printed ws a,
          item_loop_lem ws vs 0 255 c.send_data (f.lit32 0 0) c.norm2_vec copy p (omega (arith, h))
              (omega arith) (omega arith) refl,
        )
        refl

  part_loop_one :
      (c : Connection f) (ws : List (List ℕ)) (copy : List f.F32)
      → part_loop f (printed ws ∷ []) c copy ≡ process_string f c (printed ws) copy
  unfolding part_loop
  part_loop_one c ws copy = again (process_string f c (printed ws) copy)
    where
      again : (r : Option (Connection f × List f.F32)) → (do (c1, norms) ← r; some (c1, norms)) ≡ r
      again none = refl
      again (some x) = refl

module _ (f : Floats) (laws : FloatsLaws f) where
  -- A text with one list of numbers is stored. For the words of at least 255 numbers in brackets,
  -- `data_send` does not panic: in whatever state, it replaces the bytes to send by those of the
  -- numbers, in order, and the norms by the sums of squares of the first 255 numbers and then of
  -- every 256. (Conditions: the words have none of the characters that separate them, they are texts
  -- of the numbers, an i32 can count them, and no norm is a NaN.)
  pub data_send_stores :
      (c : Connection f) (ws : List (List ℕ)) (vs : List f.F32)
      → AllWords ws
      → Parses f ws vs
      → 255 ≤ length vs
      → length ws ≤ i32_max
      → AllNumbers f laws (block_norms f 255 (f.lit32 0 0) vs)
      → (c' : Connection f) × (data_send f c (printed ws) ≡ some c')
        × (c'.send_data ≡ bytes_of f vs)
        × (c'.norm2_vec ≡ block_norms f 255 (f.lit32 0 0) vs)
  unfolding data_send
  data_send_stores c ws vs a p long short numbers =
      let c1 : Connection f = record c {
        norm2_vec = [];
        send_data = [];
        low_split_point = f.lit32 0 0;
        high_split_point = f.lit32 0 0;
      } in
      let c2 : Connection f = record c1 {
        send_data = bytes_of f vs;
        norm2_vec = block_norms f 255 (f.lit32 0 0) vs;
      } in
      let (low, high, points) =
        set_split_points-succeeds f laws c2 (block_norms f 255 (f.lit32 0 0) vs)
          (block_norms-some f 255 (f.lit32 0 0) vs (omega arith) long) numbers in
      (
        record c2 { low_split_point = low; high_split_point = high },
        ap (λ parts. do (c3, norms) ← part_loop f parts c1 []; set_split_points f c3 norms)
              (parts_of-printed ws a)
            ∙ ap (λ r. do (c3, norms) ← r; set_split_points f c3 norms)
                (part_loop_one f c1 ws [] ∙ process_string_lem f c1 ws vs [] a p short)
            ∙ points,
        refl,
        refl,
      )
