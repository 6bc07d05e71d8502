-- ===== src/Connection/Exchange.antt =====
-- A request for acknowledgement from the sender's `send_data` to the receiver's `recv_slice`.
use dmludp.Prelude.{
  ℕ, ◌+◌, ◌*◌, ◌%◌, ◌≤◌, ◌<◌, ◌≡◌, refl, ap, sym, ◌∙◌, subst, true, false, ◌==◌, ◌&&◌, ◌||◌, ltb,
  not, if◌then◌else◌, List, [], ◌∷◌, ◌++◌, length, drop, take, some, arith, u64_mod, length-drop,
  take-append_of_length, append_assoc, drop_all,
}
use dmludp.Prelude.Maps.{lookup}
use dmludp.Error.{ok}
use dmludp.Floats.{Floats}
use dmludp.Octets.{Octets, OctetsLaws}
use dmludp.Packet.{Header, elict_ack, from_slice}
use dmludp.Packet.RoundTrip.{encoded, encoded-append, length-encoded, from_slice-encoded}
use dmludp.SendBuf.{is_nil}
use dmludp.Connection.{Connection, write_pkt_type}
use dmludp.Connection.Send.{send_data, send_packet, send_request, request_length, request_header}
use dmludp.Connection.Receive.{recv_slice}
use dmludp.Connection.Paced.{IsPaced}
use dmludp.Connection.Request.{words, AllU64, length-words, named, requested, send_request_lem}
use dmludp.Connection.Answer.{verdict, answered, member, lookup-answers, recv_slice_lem}

module _ (f : Floats) (o : Octets) where
  -- a request is due
  abbrev pub IsDue : Connection f → Type 0
  IsDue c =
      (((c.sent_count % 8 == 0 && ltb 0 c.sent_count) || c.stop_flag) ≡ true)
      × ((c.rtt == 0 && c.is_server) ≡ false)
      × ((not c.handshake_confirmed && not c.is_server) ≡ false)

  write_pkt_type_due :
      (c : Connection f)
      → IsDue c
      → write_pkt_type f c ≡ (ok elict_ack, record c { sent_count = 0 })
  unfolding write_pkt_type
  write_pkt_type_due c (d, a, b) = rw (a, b, d)

  -- The length in the header is that of the offsets in the packet.
  request_length_lem :
      (c : Connection f)
      → IsPaced f o c
      → IsDue c
      → request_length f c (named f c) ≡ 8 * length (named f c)
  unfolding request_length
  request_length_lem c v (d, _, _) =
      ground (arith, v.counted, v.few, length-drop c.ack_point c.sent_pkt)

  -- the header of the request
  abbrev pub due_header : Connection f → Header
  due_header c = request_header f c.ack_space.next_pkt_num (8 * length (named f c))

pub take-encoded :
    (h : Header) (w rest : List ℕ) → take (26 + length w) (encoded h (w ++ rest)) ≡ encoded h w
take-encoded h w rest =
    ap (take (26 + length w)) (
      sym (encoded-append h (w ++ rest))
      ∙ sym (append_assoc (encoded h []) w rest)
      ∙ ap (λ xs. xs ++ rest) (encoded-append h w))
    ∙ take-append_of_length (26 + length w) (encoded h w) rest (length-encoded h w)

module _ (f : Floats) (o : Octets) (laws : OctetsLaws o) where
  pub not_nil : (xs : List ℕ) → 26 ≤ length xs → is_nil xs ≡ false
  not_nil [] h = absurd (omega arith)
  not_nil (x ∷ xs) h = refl

  is_request :
      (c : Connection f) (out : List ℕ) (now : ℕ)
      → IsDue f o c
      → 26 ≤ length out
      → send_data f o c out now ≡ send_request f o (record c { sent_count = 0 }) out
  unfolding send_data send_packet
  is_request c out now due h =
      rw (not_nil out h, write_pkt_type_due f o c due, write_pkt_type_due f o c due)

  -- the sender's half
  send_data_due :
      (c : Connection f) (out : List ℕ) (now : ℕ)
      → IsPaced f o c
      → IsDue f o c
      → AllU64 (named f c)
      → c.ack_space.next_pkt_num + 1 < u64_mod
      → 26 + 8 * length (named f c) < u64_mod
      → 26 + 8 * length (named f c) ≤ length out
      → send_data f o c out now
        ≡ some (
          ok (26 + 8 * length (named f c)),
          requested f (record c { sent_count = 0 }),
          encoded (due_header f o c) (words (named f c) ++ drop (26 + 8 * length (named f c)) out),
        )
  unfolding request_length
  send_data_due c out now v due u un small fits =
      let l = request_length_lem f o c v due in
      is_request c out now due (omega arith)
      ∙ (send_request_lem f o laws (record c { sent_count = 0 }) out (omega (arith, v.counted)) u un
            (subst (λ n. 26 + n < u64_mod) (sym l) small) fits
          ∙ ap
              (λ n. some (
                ok (26 + n),
                requested f (record c { sent_count = 0 }),
                encoded (request_header f c.ack_space.next_pkt_num n)
                    (words (named f c) ++ drop (26 + 8 * length (named f c)) out),
              ))
              l)

  -- A request for acknowledgement is answered. A sender that keeps its pace and owes a request makes
  -- a packet that names the offsets it has sent since the last request, whose header is read as that
  -- of a request with the next packet number and the number of bytes of the offsets, and goes on as if it had sent none. A receiver that is given this packet
  -- accepts it, with its number, and then holds for each of the offsets whether it has arrived (0)
  -- or not (1); what it held for other offsets stays. (Conditions: the offsets are u64, room in the
  -- buffer, and packet numbers and counters below 2 ^ 64.)
  pub request_is_answered :
      (c r : Connection f) (out : List ℕ) (now later : ℕ)
      → IsPaced f o c
      → IsDue f o c
      → AllU64 (named f c)
      → c.ack_space.next_pkt_num + 1 < u64_mod
      → r.recv_count + 1 < u64_mod
      → 26 + 8 * length (named f c) < u64_mod
      → 26 + 8 * length (named f c) ≤ length out
      → let n = 26 + 8 * length (named f c) in
        (c' r' : Connection f) × (out' : List ℕ) × (send_data f o c out now ≡ some (ok n, c', out'))
        × (from_slice o (take n out')
            ≡ ok (record {
              ty = elict_ack;
              pkt_num = c.ack_space.next_pkt_num;
              priority = 0;
              offset = 0;
              pkt_length = 8 * length (named f c);
            }))
        × (named f c' ≡ [])
        × (c'.sent_count ≡ 0)
        × (recv_slice f o r (take n out') later ≡ some (ok 0, r'))
        × (r'.send_num ≡ c.ack_space.next_pkt_num)
        × ((k : ℕ)
            → lookup k r'.recv_hashmap ≡ (
                if member k (named f c)
                then some (verdict r.recv_dic k)
                else lookup k r.recv_hashmap))
  request_is_answered c r out now later v due u un rn small fits = (
    requested f (record c { sent_count = 0 }),
    answered f r c.ack_space.next_pkt_num (named f c),
    _,
    send_data_due c out now v due u un small fits,
    ap (from_slice o) packet
        ∙ from_slice-encoded o laws (due_header f o c) (words (named f c)) (record {
          pkt_num_u64 = omega (arith, un);
          priority_u8 = omega arith;
          offset_u64 = omega arith;
          pkt_length_u64 = omega (arith, small);
        }),
    drop_all (length c.sent_pkt) c.sent_pkt (omega arith),
    refl,
    ap (λ xs. recv_slice f o r xs later) packet
        ∙ recv_slice_lem f o laws r c.ack_space.next_pkt_num (8 * length (named f c)) later
            (named f c) rn (omega arith) (omega arith) u,
    refl,
    lookup-answers r.recv_dic (named f c) r.recv_hashmap,
  )
    where
      packet :
          take (26 + 8 * length (named f c)) (
            encoded
              (due_header f o c)
              (words (named f c) ++ drop (26 + 8 * length (named f c)) out))
          ≡ encoded (due_header f o c) (words (named f c))
      packet =
          ap
            (λ n. take (26 + n) (
              encoded (due_header f o c)
                (words (named f c) ++ drop (26 + 8 * length (named f c)) out)))
            (sym (length-words (named f c)))
          ∙ take-encoded (due_header f o c) (words (named f c)) _
