-- ===== src/Connection/Report.antt =====
-- An acknowledgement as `Connection::send_data` of src/lib.rs writes it.
use dmludp.Prelude.{
  ℕ, ◌+◌, ◌*◌, ◌≤◌, ◌≡◌, refl, sym, ap, ◌∙◌, List, [], ◌∷◌, ◌++◌, length, drop, arith, IsU64,
  to_be_bytes, length-be_digits, length-append, length-drop, drop-drop, append_assoc, append-nil,
}
use dmludp.Error.{ok}
use dmludp.Octets.{Octets, OctetsLaws}
use dmludp.Packet.{Header}
use dmludp.Packet.RoundTrip.{IsHeader, encoded, to_bytes_fits}
use dmludp.Connection.Wire.{put_pairs, put_ack}
use dmludp.Connection.Closing.{pair_words, AllPairs}

length-pair_words : (m : List (ℕ × ℕ)) → length (pair_words m) ≡ 16 * length m
length-pair_words [] = refl
length-pair_words ((k, v) ∷ m) = omega (
  arith,
  length-append (to_be_bytes k) (to_be_bytes v ++ pair_words m),
  length-append (to_be_bytes v) (pair_words m),
  length-be_digits 8 k,
  length-be_digits 8 v,
  length-pair_words m,
)

-- the mark and the entries
abbrev pub report : ℕ → List (ℕ × ℕ) → List ℕ
report mark m = to_be_bytes mark ++ pair_words m

pub length-report : (mark : ℕ) (m : List (ℕ × ℕ)) → length (report mark m) ≡ 8 + 16 * length m
length-report mark m = omega (
  arith,
  length-append (to_be_bytes mark) (pair_words m),
  length-be_digits 8 mark,
  length-pair_words m,
)

module _ (o : Octets) (laws : OctetsLaws o) where
  put_pairs_fits :
      (m : List (ℕ × ℕ)) (b : o.Buf)
      → AllPairs m
      → 16 * length m ≤ length (o.ahead b)
      → (b' : o.Buf) × (put_pairs o m b ≡ (ok tt, b'))
        × (o.behind b' ≡ o.behind b ++ pair_words m)
        × (o.ahead b' ≡ drop (16 * length m) (o.ahead b))
  unfolding put_pairs
  put_pairs_fits [] b u h = (b, refl, sym (append-nil (o.behind b)), refl)
  put_pairs_fits ((k, v) ∷ m) b (uk, uv, u) h =
      let (b1, e1, w1, a1) = laws.put_u64_lem k b uk (omega arith) in
      let (b2, e2, w2, a2) =
        laws.put_u64_lem v b1 uv (rw a1 (omega (arith, length-drop 8 (o.ahead b)))) in
      let (b3, e3, w3, a3) =
        put_pairs_fits m b2 u
          (rw (a2, a1, drop-drop) (omega (arith, length-drop 16 (o.ahead b)))) in
      (
        b3,
        rw (e1, e2) e3,
        w3 ∙ rw (w2, w1) (simp append_assoc),
        a3 ∙ rw (a2, a1, drop-drop, drop-drop) (ap (λ n. drop n (o.ahead b)) (omega arith)),
      )

  pub put_ack_fits :
      (h : Header) (mark : ℕ) (m : List (ℕ × ℕ)) (out : List ℕ)
      → IsHeader h
      → IsU64 mark
      → AllPairs m
      → 34 + 16 * length m ≤ length out
      → put_ack o h mark m out ≡ (ok tt, encoded h (report mark m ++ drop (34 + 16 * length m) out))
  unfolding put_ack
  put_ack_fits h mark m out v um u fits =
      let (e0, a0) = laws.with_slice_lem out in
      let (b, e, w, a) = to_bytes_fits o laws h (o.with_slice out) v (rw a0 (omega arith)) in
      let (b1, e1, w1, a1) =
        laws.put_u64_lem mark b um (rw (a, a0) (omega (arith, length-drop 26 out))) in
      let (b2, e2, w2, a2) =
        put_pairs_fits m b1 u (rw (a1, a, a0, drop-drop) (omega (arith, length-drop 34 out))) in
      let end : 26 + (8 + 16 * length m) ≡ 34 + 16 * length m = omega arith in
      rw (e, e1, e2, w2, w1, w, e0, a2, a1, a, a0, drop-drop, drop-drop, end)
        (simp (append_assoc, append-nil))
