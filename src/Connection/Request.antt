-- ===== src/Connection/Request.antt =====
-- A request for acknowledgement: the packet that `Connection::send_data` makes for `ElictAck`.
use dmludp.Prelude.{
  ℕ, ◌+◌, ◌*◌, ◌≤◌, ◌<◌, ◌≡◌, refl, ap, sym, ◌∙◌, List, [], ◌∷◌, ◌++◌, length, drop, some, arith,
  IsU64, u64_mod, ◌||◌, to_be_bytes, length-be_digits, length-append, length-drop, drop-drop,
  append_assoc, append-nil, slice_from-some, add64-some,
}
use dmludp.Error.{ok}
use dmludp.Floats.{Floats}
use dmludp.Octets.{Octets, OctetsLaws}
use dmludp.Packet.{Header}
use dmludp.Packet.RoundTrip.{IsHeader, encoded, to_bytes_fits}
use dmludp.Connection.{Connection}
use dmludp.Connection.Wire.{put_all, put_request}
use dmludp.Connection.Send.{
  send_request, send_offsets, pending, end_request, request_length, request_header,
}

-- the offsets as they stand in the packet
abbrev pub words : List ℕ → List ℕ
words [] = []
words (x ∷ xs) = to_be_bytes x ++ words xs

abbrev pub AllU64 : List ℕ → Type 0
AllU64 [] = Unit
AllU64 (x ∷ xs) = IsU64 x × AllU64 xs

pub length-words : (xs : List ℕ) → length (words xs) ≡ 8 * length xs
length-words [] = refl
length-words (x ∷ xs) =
    omega (arith, length-append (to_be_bytes x) (words xs), length-be_digits 8 x, length-words xs)

module _ (o : Octets) (laws : OctetsLaws o) where
  put_all_fits :
      (xs : List ℕ) (b : o.Buf)
      → AllU64 xs
      → 8 * length xs ≤ length (o.ahead b)
      → (b' : o.Buf) × (put_all o xs b ≡ (ok tt, b'))
        × (o.behind b' ≡ o.behind b ++ words xs)
        × (o.ahead b' ≡ drop (8 * length xs) (o.ahead b))
  unfolding put_all
  put_all_fits [] b u h = (b, refl, sym (append-nil (o.behind b)), refl)
  put_all_fits (x ∷ xs) b (u, us) h =
      let (b1, e1, w1, a1) = laws.put_u64_lem x b u (omega arith) in
      let (b2, e2, w2, a2) =
        put_all_fits xs b1 us (rw a1 (omega (arith, length-drop 8 (o.ahead b)))) in
      (
        b2,
        rw e1 e2,
        w2 ∙ rw w1 (simp append_assoc),
        a2 ∙ rw (a1, drop-drop) (ap (λ n. drop n (o.ahead b)) (omega arith)),
      )

  -- what `put_request` leaves in the buffer
  put_request_fits :
      (h : Header) (offsets out : List ℕ)
      → IsHeader h
      → AllU64 offsets
      → 26 + 8 * length offsets ≤ length out
      → put_request o h offsets out
        ≡ some (ok tt, encoded h (words offsets ++ drop (26 + 8 * length offsets) out))
  unfolding put_request
  put_request_fits h offsets out v u fits =
      let (e0, a0) = laws.with_slice_lem out in
      let (b, e, w, a) = to_bytes_fits o laws h (o.with_slice out) v (rw a0 (omega arith)) in
      let (b', e', w', a') =
        put_all_fits offsets b u (rw (a, a0) (omega (arith, length-drop 26 out))) in
      rw (put_request, e, e, e', w', w, e0, a', a, a0, drop-drop) (simp (append_assoc, append-nil))

module _ (f : Floats) where
  -- the offsets that a request names: those sent since the last one
  abbrev pub named : Connection f → List ℕ
  named c = drop c.ack_point c.sent_pkt

  -- the sender behind its request
  abbrev pub requested : Connection f → Connection f
  requested c =
      let s = c.ack_space in
      record c {
        ack_space = record s { next_pkt_num = s.next_pkt_num + 1 };
        ack_point = length c.sent_pkt;
        stop_ack = c.stop_ack || c.stop_flag;
      }

  -- the packet, in the buffer `out`
  abbrev pub request_packet : Connection f → List ℕ → List ℕ
  request_packet c out =
      encoded (request_header f c.ack_space.next_pkt_num (request_length f c (named c)))
        (words (named c) ++ drop (26 + 8 * length (named c)) out)

module _ (f : Floats) (o : Octets) (laws : OctetsLaws o) where
  send_offsets_fits :
      (c : Connection f) (num : ℕ) (out : List ℕ)
      → c.ack_point ≤ length c.sent_pkt
      → AllU64 (named f c)
      → IsU64 num
      → 26 + request_length f c (named f c) < u64_mod
      → 26 + 8 * length (named f c) ≤ length out
      → send_offsets f o c num out
        ≡ some (
          ok (26 + request_length f c (named f c)),
          record c { ack_point = length c.sent_pkt; stop_ack = c.stop_ack || c.stop_flag },
          encoded
              (request_header f num (request_length f c (named f c)))
              (words (named f c) ++ drop (26 + 8 * length (named f c)) out),
        )
  unfolding send_offsets pending end_request
  send_offsets_fits c num out p u un small fits = rw (
    slice_from-some c.sent_pkt c.ack_point p,
    put_request_fits o laws (request_header f num (request_length f c (named f c))) (named f c) out
        (record {
          pkt_num_u64 = un;
          priority_u8 = omega arith;
          offset_u64 = omega arith;
          pkt_length_u64 = omega arith;
        })
        u fits,
    add64-some 26 (request_length f c (named f c)) small,
  )

  pub send_request_lem :
      (c : Connection f) (out : List ℕ)
      → c.ack_point ≤ length c.sent_pkt
      → AllU64 (named f c)
      → c.ack_space.next_pkt_num + 1 < u64_mod
      → 26 + request_length f c (named f c) < u64_mod
      → 26 + 8 * length (named f c) ≤ length out
      → send_request f o c out
        ≡ some (ok (26 + request_length f c (named f c)), requested f c, request_packet f c out)
  unfolding send_request
  send_request_lem c out p u un small fits =
      rw (add64-some c.ack_space.next_pkt_num 1 un)
        (send_offsets_fits _ c.ack_space.next_pkt_num out p u (omega arith) small fits)
