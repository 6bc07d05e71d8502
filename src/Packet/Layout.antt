-- ===== src/Packet/Layout.antt =====
-- Where `Header::from_bytes` finds each field, on every input.
use dmludp.Prelude.{
  ℕ, ◌≤◌, ◌<◌, ◌≡◌, refl, sym, ◌∙◌, List, [], ◌∷◌, some, none, arith, length, take, drop, get_or,
  ltb, if◌then◌else◌, from_be_bytes, take-append-drop, length-take, length-drop, drop-drop,
  get_or-drop, ltb→lt, Bool-cases, inl, inr,
}
use dmludp.Error.{ok, err, buffer_too_short}
use dmludp.Octets.{Octets, OctetsLaws}
use dmludp.Packet.{Header, type_of_byte, from_bytes, from_slice}
use native.Mathlib.Decide.{dec_lt}

-- The header as the record of its fields at fixed positions.
unfoldable pub header_at : List ℕ → Header
header_at buf = record {
  ty = type_of_byte (get_or buf 0 0);
  pkt_num = from_be_bytes (take 8 (drop 1 buf));
  priority = get_or buf 9 0;
  offset = from_be_bytes (take 8 (drop 10 buf));
  pkt_length = from_be_bytes (take 8 (drop 18 buf));
}

cons_of_pos {ℓ} :
    {A : Type ℓ} (xs : List A) (d : A) → 1 ≤ length xs → xs ≡ get_or xs 0 d ∷ drop 1 xs
cons_of_pos [] d h = absurd (omega arith)
cons_of_pos (x ∷ xs) d h = refl

-- The fields, read one after the other.
pub header_at_lem :
    (s s1 s2 s3 s4 : List ℕ)
    → s1 ≡ drop 1 s
    → s2 ≡ drop 9 s
    → s3 ≡ drop 10 s
    → s4 ≡ drop 18 s
    → ok (record {
      ty = type_of_byte (get_or s 0 0);
      pkt_num = from_be_bytes (take 8 s1);
      priority = get_or s2 0 0;
      offset = from_be_bytes (take 8 s3);
      pkt_length = from_be_bytes (take 8 s4);
    })
      ≡ ok (header_at s)
unfolding header_at
header_at_lem s s1 s2 s3 s4 e1 e2 e3 e4 = rw (e1, e2, e3, e4, get_or-drop)

module _ (o : Octets) (laws : OctetsLaws o) where
  get_u8_fits :
      (b : o.Buf)
      → 1 ≤ length (o.ahead b)
      → (b' : o.Buf) × (o.get_u8 b ≡ some (get_or (o.ahead b) 0 0, b'))
        × (o.ahead b' ≡ drop 1 (o.ahead b))
  get_u8_fits b h = laws.get_u8_lem b _ _ (cons_of_pos (o.ahead b) 0 h)

  get_u64_fits :
      (b : o.Buf)
      → 8 ≤ length (o.ahead b)
      → (b' : o.Buf) × (o.get_u64 b ≡ some (from_be_bytes (take 8 (o.ahead b)), b'))
        × (o.ahead b' ≡ drop 8 (o.ahead b))
  get_u64_fits b h =
      laws.get_u64_lem b (take 8 (o.ahead b)) (drop 8 (o.ahead b))
        (omega (arith, length-take 8 (o.ahead b))) (sym (take-append-drop 8 (o.ahead b)))

  -- The five reads in a row, each given what it found.
  from_bytes_run :
      (b b1 b2 b3 b4 b5 : o.Buf) (x1 x2 x3 x4 x5 : ℕ)
      → o.get_u8 b ≡ some (x1, b1)
      → o.get_u64 b1 ≡ some (x2, b2)
      → o.get_u8 b2 ≡ some (x3, b3)
      → o.get_u64 b3 ≡ some (x4, b4)
      → o.get_u64 b4 ≡ some (x5, b5)
      → (from_bytes o b).0
        ≡ ok (record {
          ty = type_of_byte x1;
          pkt_num = x2;
          priority = x3;
          offset = x4;
          pkt_length = x5;
        })
  unfolding from_bytes
  from_bytes_run b b1 b2 b3 b4 b5 x1 x2 x3 x4 x5 e1 e2 e3 e4 e5 = rw (e1, e2, e3, e4, e5)

  from_bytes_fits :
      (b : o.Buf) → 26 ≤ length (o.ahead b) → (from_bytes o b).0 ≡ ok (header_at (o.ahead b))
  unfolding header_at
  from_bytes_fits b h =
      let (b1, e1, a1) = get_u8_fits b (omega arith) in
      let (b2, e2, a2) = get_u64_fits b1 (rw a1 (omega (arith, length-drop 1 (o.ahead b)))) in
      let a2' : o.ahead b2 ≡ drop 9 (o.ahead b) = a2 ∙ rw (a1, drop-drop) in
      let (b3, e3, a3) = get_u8_fits b2 (rw a2' (omega (arith, length-drop 9 (o.ahead b)))) in
      let a3' : o.ahead b3 ≡ drop 10 (o.ahead b) = a3 ∙ rw (a2', drop-drop) in
      let (b4, e4, a4) = get_u64_fits b3 (rw a3' (omega (arith, length-drop 10 (o.ahead b)))) in
      let a4' : o.ahead b4 ≡ drop 18 (o.ahead b) = a4 ∙ rw (a3', drop-drop) in
      let (b5, e5, a5) = get_u64_fits b4 (rw a4' (omega (arith, length-drop 18 (o.ahead b)))) in
      from_bytes_run b b1 b2 b3 b4 b5 _ _ _ _ _ e1 e2 e3 e4 e5
      ∙ header_at_lem (o.ahead b) (o.ahead b1) (o.ahead b2) (o.ahead b3) (o.ahead b4) a1 a2' a3' a4'

  -- A read that does not fit ends the parse, whichever of the five it is.
  fails_at_2 :
      {b b1 : o.Buf} {x1 : ℕ}
      → o.get_u8 b ≡ some (x1, b1)
      → o.get_u64 b1 ≡ none
      → (from_bytes o b).0 ≡ err buffer_too_short
  unfolding from_bytes
  fails_at_2 e1 e2 = rw (e1, e2)

  fails_at_3 :
      {b b1 b2 : o.Buf} {x1 x2 : ℕ}
      → o.get_u8 b ≡ some (x1, b1)
      → o.get_u64 b1 ≡ some (x2, b2)
      → o.get_u8 b2 ≡ none
      → (from_bytes o b).0 ≡ err buffer_too_short
  unfolding from_bytes
  fails_at_3 e1 e2 e3 = rw (e1, e2, e3)

  fails_at_4 :
      {b b1 b2 b3 : o.Buf} {x1 x2 x3 : ℕ}
      → o.get_u8 b ≡ some (x1, b1)
      → o.get_u64 b1 ≡ some (x2, b2)
      → o.get_u8 b2 ≡ some (x3, b3)
      → o.get_u64 b3 ≡ none
      → (from_bytes o b).0 ≡ err buffer_too_short
  unfolding from_bytes
  fails_at_4 e1 e2 e3 e4 = rw (e1, e2, e3, e4)

  fails_at_5 :
      {b b1 b2 b3 b4 : o.Buf} {x1 x2 x3 x4 : ℕ}
      → o.get_u8 b ≡ some (x1, b1)
      → o.get_u64 b1 ≡ some (x2, b2)
      → o.get_u8 b2 ≡ some (x3, b3)
      → o.get_u64 b3 ≡ some (x4, b4)
      → o.get_u64 b4 ≡ none
      → (from_bytes o b).0 ≡ err buffer_too_short
  unfolding from_bytes
  fails_at_5 e1 e2 e3 e4 e5 = rw (e1, e2, e3, e4, e5)

  from_bytes_short :
      (b : o.Buf) → length (o.ahead b) < 26 → (from_bytes o b).0 ≡ err buffer_too_short
  from_bytes_short b h = elim (dec_lt (length (o.ahead b)) 1) [
    | yes p ↦ unfold from_bytes in rw (laws.get_u8_short b p)
    | no p ↦
        let (b1, e1, a1) = get_u8_fits b (omega arith) in
        elim (dec_lt (length (o.ahead b)) 9) [
          | yes q ↦
              fails_at_2 e1
                (laws.get_u64_short b1 (rw a1 (omega (arith, length-drop 1 (o.ahead b)))))
          | no q ↦ after_2 b b1 e1 a1 h (omega arith)
        ]
  ]
    where
      after_4 :
          (b b1 b2 b3 : o.Buf) {x1 x2 x3 : ℕ}
          → o.get_u8 b ≡ some (x1, b1)
          → o.get_u64 b1 ≡ some (x2, b2)
          → o.get_u8 b2 ≡ some (x3, b3)
          → o.ahead b3 ≡ drop 10 (o.ahead b)
          → length (o.ahead b) < 26
          → 10 ≤ length (o.ahead b)
          → (from_bytes o b).0 ≡ err buffer_too_short
      after_4 b b1 b2 b3 e1 e2 e3 a3 h r = elim (dec_lt (length (o.ahead b)) 18) [
        | yes q ↦
            fails_at_4 e1 e2 e3
              (laws.get_u64_short b3 (rw a3 (omega (arith, length-drop 10 (o.ahead b)))))
        | no q ↦
            let (b4, e4, a4) =
              get_u64_fits b3 (rw a3 (omega (arith, length-drop 10 (o.ahead b)))) in
            let a4' : o.ahead b4 ≡ drop 18 (o.ahead b) = a4 ∙ rw (a3, drop-drop) in
            fails_at_5 e1 e2 e3 e4
              (laws.get_u64_short b4 (rw a4' (omega (arith, length-drop 18 (o.ahead b)))))
      ]

      after_2 :
          (b b1 : o.Buf) {x1 : ℕ}
          → o.get_u8 b ≡ some (x1, b1)
          → o.ahead b1 ≡ drop 1 (o.ahead b)
          → length (o.ahead b) < 26
          → 9 ≤ length (o.ahead b)
          → (from_bytes o b).0 ≡ err buffer_too_short
      after_2 b b1 e1 a1 h r =
          let (b2, e2, a2) = get_u64_fits b1 (rw a1 (omega (arith, length-drop 1 (o.ahead b)))) in
          let a2' : o.ahead b2 ≡ drop 9 (o.ahead b) = a2 ∙ rw (a1, drop-drop) in
          elim (dec_lt (length (o.ahead b)) 10) [
            | yes q ↦
                fails_at_3 e1 e2
                  (laws.get_u8_short b2 (rw a2' (omega (arith, length-drop 9 (o.ahead b)))))
            | no q ↦
                let (b3, e3, a3) =
                  get_u8_fits b2 (rw a2' (omega (arith, length-drop 9 (o.ahead b)))) in
                after_4 b b1 b2 b3 e1 e2 e3 (a3 ∙ rw (a2', drop-drop)) h (omega arith)
          ]

  -- `from_slice` fails with `BufferTooShort` on fewer than 26 bytes, and otherwise succeeds, on any
  -- bytes, with the header whose fields stand big-endian at 0, 1..9, 9, 10..18 and 18..26.
  pub from_slice_lem :
      (buf : List ℕ)
      → from_slice o buf
        ≡ (if ltb (length buf) 26 then err buffer_too_short else ok (header_at buf))
  unfolding from_slice
  from_slice_lem buf = elim (Bool-cases (ltb (length buf) 26)) [
    | inl e ↦ rw e (from_bytes_short _ (rw (laws.with_slice_lem buf).1 (ltb→lt _ _ e)))
    | inr e ↦ rw e (
        from_bytes_fits _ (rw (laws.with_slice_lem buf).1 (ground arith))
        ∙ rw (laws.with_slice_lem buf).1)
  ]
