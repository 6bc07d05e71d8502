-- ===== src/Packet/RoundTrip.antt =====
-- What `Header::to_bytes` writes, and that `Header::from_slice` reads it back.
use dmludp.Prelude.{
  slice_from, slice_from-some, some, arith, ℕ, ◌+◌, ◌≤◌, ◌<◌, ◌≡◌, refl, sym, ◌∙◌, ap, List, [],
  ◌∷◌, ◌++◌, some, arith, length, drop, IsU64, to_be_bytes, from_be_bytes,
  from_be_bytes-to_be_bytes, length-be_digits, length-append, ltb, false, length-drop, drop-drop,
  append_assoc, append-nil, take-append_of_length, drop-append_of_length,
}
use dmludp.Error.{ok}
use dmludp.Octets.{Octets, OctetsLaws}
use dmludp.Packet.{
  PacketType, retry, handshake, application, elict_ack, ack, stop, fin, start_ack, Header,
  type_of_byte, byte_of_type, to_bytes, from_slice,
}
use dmludp.Packet.Layout.{header_at, header_at_lem, from_slice_lem}

-- Each field fits its type in the source.
pub record IsHeader (h : Header) : Type 0 where
  pub pkt_num_u64 : IsU64 h.pkt_num
  pub priority_u8 : h.priority < 256
  pub offset_u64 : IsU64 h.offset
  pub pkt_length_u64 : IsU64 h.pkt_length

-- The 26 bytes of a header, with `rest` behind them.
abbrev pub encoded : Header → List ℕ → List ℕ
encoded h rest =
    byte_of_type h.ty
    ∷ (to_be_bytes h.pkt_num
        ++ (h.priority ∷ (to_be_bytes h.offset ++ (to_be_bytes h.pkt_length ++ rest))))

-- `StartAck` has no byte of its own: it is written as `Fin`.
abbrev pub on_wire : PacketType → PacketType
on_wire start_ack = fin
on_wire retry = retry
on_wire handshake = handshake
on_wire application = application
on_wire elict_ack = elict_ack
on_wire ack = ack
on_wire stop = stop
on_wire fin = fin

byte_of_type-lt : (t : PacketType) → byte_of_type t < 256
unfolding byte_of_type
byte_of_type-lt retry = omega arith
byte_of_type-lt _ = omega arith

type_of_byte-byte_of_type : (t : PacketType) → type_of_byte (byte_of_type t) ≡ on_wire t
unfolding type_of_byte byte_of_type
type_of_byte-byte_of_type retry = refl
type_of_byte-byte_of_type _ = refl

pub length-encoded : (h : Header) (rest : List ℕ) → length (encoded h rest) ≡ 26 + length rest
length-encoded h rest = omega (
  arith,
  length-append (to_be_bytes h.pkt_num) (h.priority ∷ tail),
  length-append (to_be_bytes h.offset) (to_be_bytes h.pkt_length ++ rest),
  length-append (to_be_bytes h.pkt_length) rest,
  length-be_digits 8 h.pkt_num,
  length-be_digits 8 h.offset,
  length-be_digits 8 h.pkt_length,
)
  where
    tail : List ℕ
    tail = to_be_bytes h.offset ++ (to_be_bytes h.pkt_length ++ rest)

long_enough : (n : ℕ) → ltb (26 + n) 26 ≡ false
long_enough n = ground arith

pub encoded-append : (h : Header) (rest : List ℕ) → encoded h [] ++ rest ≡ encoded h rest
encoded-append h rest = simp (append_assoc, append-nil)

module _ (t p : ℕ) (w1 w2 rest : List ℕ) (l1 : length w1 ≡ 8) (l2 : length w2 ≡ 8) where
  drop_10 : drop 10 (t ∷ (w1 ++ (p ∷ (w2 ++ rest)))) ≡ w2 ++ rest
  drop_10 =
      sym (drop-drop 1 9 (t ∷ (w1 ++ (p ∷ (w2 ++ rest)))))
      ∙ ap (drop 1) (drop-append_of_length 8 w1 _ l1)

  drop_18 : drop 18 (t ∷ (w1 ++ (p ∷ (w2 ++ rest)))) ≡ rest
  drop_18 =
      sym (drop-drop 8 10 (t ∷ (w1 ++ (p ∷ (w2 ++ rest)))))
      ∙ ap (drop 8) drop_10
      ∙ drop-append_of_length 8 w2 rest l2

header_at_words :
    (t p : ℕ) (w1 w2 w3 rest : List ℕ)
    → length w1 ≡ 8
    → length w2 ≡ 8
    → length w3 ≡ 8
    → ok (header_at (t ∷ (w1 ++ (p ∷ (w2 ++ (w3 ++ rest))))))
      ≡ ok (record {
        ty = type_of_byte t;
        pkt_num = from_be_bytes w1;
        priority = p;
        offset = from_be_bytes w2;
        pkt_length = from_be_bytes w3;
      })
header_at_words t p w1 w2 w3 rest l1 l2 l3 =
    sym (
      header_at_lem (t ∷ (w1 ++ (p ∷ (w2 ++ (w3 ++ rest))))) _ _ _ _ refl
        (sym (drop-append_of_length 8 w1 _ l1)) (sym (drop_10 t p w1 w2 (w3 ++ rest) l1 l2))
        (sym (drop_18 t p w1 w2 (w3 ++ rest) l1 l2)))
    ∙ rw (
      take-append_of_length 8 w1 (p ∷ (w2 ++ (w3 ++ rest))) l1,
      take-append_of_length 8 w2 (w3 ++ rest) l2,
      take-append_of_length 8 w3 rest l3,
    )

header_at-encoded :
    (h : Header) (rest : List ℕ)
    → IsHeader h
    → ok (header_at (encoded h rest)) ≡ ok (record h { ty = on_wire h.ty })
header_at-encoded h rest v =
    header_at_words (byte_of_type h.ty) h.priority (to_be_bytes h.pkt_num) (to_be_bytes h.offset)
      (to_be_bytes h.pkt_length) rest (length-be_digits 8 h.pkt_num) (length-be_digits 8 h.offset)
      (length-be_digits 8 h.pkt_length)
    ∙ rw (
      from_be_bytes-to_be_bytes h.pkt_num v.pkt_num_u64,
      from_be_bytes-to_be_bytes h.offset v.offset_u64,
      from_be_bytes-to_be_bytes h.pkt_length v.pkt_length_u64,
      type_of_byte-byte_of_type,
    )

pub drop-encoded : (h : Header) (rest : List ℕ) → drop 26 (encoded h rest) ≡ rest
drop-encoded h rest =
    sym (drop-drop 8 18 (encoded h rest))
    ∙ ap (drop 8) (
        drop_18 (byte_of_type h.ty) h.priority (to_be_bytes h.pkt_num) (to_be_bytes h.offset)
          (to_be_bytes h.pkt_length ++ rest) (length-be_digits 8 h.pkt_num)
          (length-be_digits 8 h.offset))
    ∙ drop-append_of_length 8 (to_be_bytes h.pkt_length) rest (length-be_digits 8 h.pkt_length)

pub slice_from-encoded : (h : Header) (rest : List ℕ) → slice_from (encoded h rest) 26 ≡ some rest
slice_from-encoded h rest =
    slice_from-some (encoded h rest) 26 (omega (arith, length-encoded h rest))
    ∙ ap some (drop-encoded h rest)

module _ (o : Octets) (laws : OctetsLaws o) where
  to_bytes_run :
      (h : Header) (b b1 b2 b3 b4 b5 : o.Buf)
      → o.put_u8 (byte_of_type h.ty) b ≡ some b1
      → o.put_u64 h.pkt_num b1 ≡ some b2
      → o.put_u8 h.priority b2 ≡ some b3
      → o.put_u64 h.offset b3 ≡ some b4
      → o.put_u64 h.pkt_length b4 ≡ some b5
      → to_bytes o h b ≡ (ok tt, b5)
  unfolding to_bytes
  to_bytes_run h b b1 b2 b3 b4 b5 e1 e2 e3 e4 e5 = rw (e1, e2, e3, e4, e5)

  -- On at least 26 bytes `to_bytes` succeeds: it writes the header at the cursor, which moves behind it.
  pub to_bytes_fits :
      (h : Header) (b : o.Buf)
      → IsHeader h
      → 26 ≤ length (o.ahead b)
      → (b' : o.Buf) × (to_bytes o h b ≡ (ok tt, b'))
        × (o.behind b' ≡ o.behind b ++ encoded h [])
        × (o.ahead b' ≡ drop 26 (o.ahead b))
  to_bytes_fits h b v fits =
      let s : List ℕ = o.ahead b in
      let (b1, e1, w1, a1) =
        laws.put_u8_lem (byte_of_type h.ty) b (byte_of_type-lt h.ty) (omega arith) in
      let (b2, e2, w2, a2) =
        laws.put_u64_lem h.pkt_num b1 v.pkt_num_u64 (rw a1 (omega (arith, length-drop 1 s))) in
      let a2' : o.ahead b2 ≡ drop 9 s = a2 ∙ rw (a1, drop-drop) in
      let (b3, e3, w3, a3) =
        laws.put_u8_lem h.priority b2 v.priority_u8 (rw a2' (omega (arith, length-drop 9 s))) in
      let a3' : o.ahead b3 ≡ drop 10 s = a3 ∙ rw (a2', drop-drop) in
      let (b4, e4, w4, a4) =
        laws.put_u64_lem h.offset b3 v.offset_u64 (rw a3' (omega (arith, length-drop 10 s))) in
      let a4' : o.ahead b4 ≡ drop 18 s = a4 ∙ rw (a3', drop-drop) in
      let (b5, e5, w5, a5) =
        laws.put_u64_lem h.pkt_length b4 v.pkt_length_u64
          (rw a4' (omega (arith, length-drop 18 s))) in
      (
        b5,
        to_bytes_run h b b1 b2 b3 b4 b5 e1 e2 e3 e4 e5,
        written h b b1 b2 b3 b4 b5 w1 w2 w3 w4 w5,
        a5 ∙ rw (a4', drop-drop),
      )
    where
      written :
          (h : Header) (b b1 b2 b3 b4 b5 : o.Buf)
          → o.behind b1 ≡ o.behind b ++ (byte_of_type h.ty ∷ [])
          → o.behind b2 ≡ o.behind b1 ++ to_be_bytes h.pkt_num
          → o.behind b3 ≡ o.behind b2 ++ (h.priority ∷ [])
          → o.behind b4 ≡ o.behind b3 ++ to_be_bytes h.offset
          → o.behind b5 ≡ o.behind b4 ++ to_be_bytes h.pkt_length
          → o.behind b5 ≡ o.behind b ++ encoded h []
      written h b b1 b2 b3 b4 b5 w1 w2 w3 w4 w5 =
          rw (w5, w4, w3, w2, w1) (simp (append_assoc, append-nil))

  -- `from_slice` on the bytes of a header.
  pub from_slice-encoded :
      (h : Header) (rest : List ℕ)
      → IsHeader h
      → from_slice o (encoded h rest) ≡ ok (record h { ty = on_wire h.ty })
  from_slice-encoded h rest v =
      from_slice_lem o laws (encoded h rest)
      ∙ rw (length-encoded, long_enough) (header_at-encoded h rest v)

  -- A header written over at least 26 bytes is read back as it was, except that `StartAck` comes
  -- back as `Fin`; the bytes from 26 on, the payload, are not touched.
  pub from_slice-to_bytes :
      (h : Header) (out : List ℕ)
      → IsHeader h
      → 26 ≤ length out
      → (b : o.Buf) × (to_bytes o h (o.with_slice out) ≡ (ok tt, b))
        × (from_slice o (o.behind b ++ o.ahead b) ≡ ok (record h { ty = on_wire h.ty }))
        × (drop 26 (o.behind b ++ o.ahead b) ≡ drop 26 out)
  from_slice-to_bytes h out v fits =
      let (e0, a0) = laws.with_slice_lem out in
      let (b, e, w, a) = to_bytes_fits h (o.with_slice out) v (rw a0 fits) in
      let w' : o.behind b ++ o.ahead b ≡ encoded h (drop 26 out) =
        rw (w, a, e0, a0) (encoded-append h (drop 26 out)) in
      (b, e, rw w' (from_slice-encoded h (drop 26 out) v), rw w' (drop-encoded h (drop 26 out)))
