-- ===== src/Connection/Stream/Control.antt =====
-- The packets of `Connection::send_data` of src/lib.rs that carry no data: `Handshake`, `Stop` and
-- `ElictAck`.
use dmludp.Prelude.{
  ℕ, zero, suc, ap₂, take-append-drop, ◌+◌, ◌*◌, ◌≤◌, ◌<◌, ◌≡◌, refl, sym, ap, ◌∙◌, subst, false,
  if◌then◌else◌, List, [], ◌∷◌, ◌++◌, length, take, drop, some, arith, u64_mod, inl, bind-some,
  add64, length-append, length-drop, length-take,
}
use dmludp.Error.{Result, ok, err}
use dmludp.Floats.{Floats}
use dmludp.Octets.{Octets, OctetsLaws}
use dmludp.Packet.{PacketType, Header, handshake, stop}
use dmludp.Packet.RoundTrip.{IsHeader, encoded}
use dmludp.Connection.{Connection, set_handshake}
use dmludp.Connection.Dispatch.{put_header_fits}
use dmludp.Connection.Exchange.{take-encoded}
use dmludp.Connection.Request.{
  AllU64, send_request_lem, named, words, length-words, requested, request_packet,
}
use dmludp.Connection.Send.{
  send_request, send_handshake, send_stop, finish, bare, request_header, request_length, Sent,
}
use dmludp.Connection.Stream.{IsControl, IsGenuine, Goes, Goes-trans, Goes-same}

module _ (f : Floats) (o : Octets) (laws : OctetsLaws o) where
  -- what `send_data` makes in the buffer, if it makes a packet
  abbrev pub Makes : List ℕ → Result ℕ → List ℕ → Type 0
  Makes d r out' = (n : ℕ) → r ≡ ok n → IsGenuine d (take n out')

  pub finish-Goes :
      (c c' : Connection f) (psize now : ℕ) (out out' : List ℕ) (r : Result ℕ)
      → finish f c psize out now ≡ some (r, c', out')
      → Goes f c c' × (out' ≡ out) × ((n : ℕ) → r ≡ ok n → n ≡ 26 + psize)
  unfolding finish
  finish-Goes c c' psize now out out' r e =
      (Goes-same f c c' (ground (arith, e)), ground (arith, e), λ n q. ground (arith, e, q))

  -- a control packet in a buffer that goes on behind it
  control :
      (d : List ℕ) (h : Header) (rest out' : List ℕ) (k n : ℕ)
      → IsHeader h
      → IsControl h.ty
      → k ≤ length rest
      → n ≡ 26 + k
      → out' ≡ encoded h rest
      → IsGenuine d (take n out')
  control d h rest out' k n fields kind fits size e = record {
    header = h;
    payload = take k rest;
    fields = fields;
    laid_out = rw (size, e) cut;
    kind = inl kind;
  }
    where
      count : length (take k rest) ≡ k
      count = omega (arith, length-take k rest, fits)

      cut : take (26 + k) (encoded h rest) ≡ encoded h (take k rest)
      cut =
          ap₂ (λ m xs. take (26 + m) (encoded h xs)) (sym count) (sym (take-append-drop k rest))
          ∙ take-encoded h (take k rest) (drop k rest)

  bare-IsHeader : (t : PacketType) → IsHeader (bare f t)
  bare-IsHeader t = record {
    pkt_num_u64 = omega arith;
    priority_u8 = omega arith;
    offset_u64 = omega arith;
    pkt_length_u64 = omega arith;
  }

  pub send_handshake-Makes :
      (d : List ℕ) (c c' : Connection f) (out out' : List ℕ) (r : Result ℕ) (now : ℕ)
      → 26 ≤ length out
      → send_handshake f o c out now ≡ some (r, c', out')
      → Goes f c c' × Makes d r out'
  unfolding send_handshake
  send_handshake-Makes d c c' out out' r now fits e =
      let (g, same, size) = finish-Goes c1 c' 0 now written out' r (sym run ∙ e) in
      (
        Goes-trans f c c1 c' first g,
        λ n q.
            control d (bare f handshake) (drop 26 out) out' 0 n (bare-IsHeader handshake) tt
              (omega arith) (size n q) same,
      )
    where
      c1 : Connection f
      c1 = if c.server then set_handshake f c now else record c { feed_back = false }

      written : List ℕ
      written = encoded (bare f handshake) (drop 26 out)

      run : send_handshake f o c out now ≡ finish f c1 0 written now
      run =
          ap
            (λ (q : Result (Unit {0}) × List ℕ). elim q.0 as (λ x. Sent f) [
              | err e ↦ some (err e, c, q.1)
              | ok _ ↦ finish f c1 0 q.1 now
            ])
            (put_header_fits o laws (bare f handshake) out (bare-IsHeader handshake) fits)

      first : Goes f c c1
      first = Goes-same f c c1 (ground arith)

  pub send_stop-Makes :
      (d : List ℕ) (c c' : Connection f) (out out' : List ℕ) (r : Result ℕ)
      → 26 ≤ length out
      → send_stop f o c out ≡ some (r, c', out')
      → Goes f c c' × Makes d r out'
  unfolding send_stop
  send_stop-Makes d c c' out out' r fits e = (
    Goes-same f c c' (ground (arith, done_with)),
    λ n q.
        control d (bare f stop) (drop 26 out) out' 0 n (bare-IsHeader stop) tt (omega arith)
          (ground (arith, done_with, q)) (ground (arith, done_with)),
  )
    where
      run : send_stop f o c out ≡ some (ok 26, c, encoded (bare f stop) (drop 26 out))
      run =
          ap
            (λ (q : Result (Unit {0}) × List ℕ). elim q.0 as (λ x. Sent f) [
              | err e ↦ some (err e, c, q.1)
              | ok _ ↦ some (ok 26, c, q.1)
            ])
            (put_header_fits o laws (bare f stop) out (bare-IsHeader stop) fits)

      done_with : (r ≡ ok 26) × (c ≡ c') × (encoded (bare f stop) (drop 26 out) ≡ out')
      done_with = let q = sym run ∙ e in (cc, cc, cc)

  AllU64-drop : (n : ℕ) (xs : List ℕ) → AllU64 xs → AllU64 (drop n xs)
  AllU64-drop zero xs u = u
  AllU64-drop (suc n) [] u = u
  AllU64-drop (suc n) (x ∷ xs) (h, u) = AllU64-drop n xs u

  -- a request that names at most 8 offsets
  pub send_request-Makes :
      (d : List ℕ) (c c' : Connection f) (out out' : List ℕ) (r : Result ℕ)
      → 1050 ≤ length out
      → c.ack_point ≤ length c.sent_pkt
      → length c.sent_pkt ≤ c.ack_point + 8
      → AllU64 c.sent_pkt
      → send_request f o c out ≡ some (r, c', out')
      → Goes f c c' × Makes d r out'
  unfolding send_request
  send_request-Makes d c c' out out' r fits below few u e =
      let q =
        sym (
          send_request_lem f o laws c out below (AllU64-drop c.ack_point c.sent_pkt u) num_u64
            (omega (arith, small)) (omega (arith, length-drop c.ack_point c.sent_pkt)))
        ∙ e in
      let size : r ≡ ok (26 + request_length f c (named f c)) = cc in
      let state : requested f c ≡ c' = cc in
      let packet : out' ≡ request_packet f c out = cc in
      (
        subst (Goes f c) state (Goes-same f c (requested f c) (refl, refl, refl, refl, refl, refl)),
        λ n m.
            control d (request_header f c.ack_space.next_pkt_num (request_length f c (named f c)))
              (words (named f c) ++ drop (26 + 8 * length (named f c)) out) out'
              (request_length f c (named f c)) n fields tt long (ground (arith, m, size)) packet,
      )
    where
      num_u64 : c.ack_space.next_pkt_num + 1 < u64_mod
      num_u64 =
          let (num, counted, _) = bind-some (add64 c.ack_space.next_pkt_num 1) _ _ e in
          ground (arith, counted)

      small : request_length f c (named f c) ≤ 64
      small = unfold request_length in ground (arith, length-drop c.ack_point c.sent_pkt, few)

      long :
          request_length f c (named f c)
          ≤ length (words (named f c) ++ drop (26 + 8 * length (named f c)) out)
      long = omega (
        arith,
        small,
        fits,
        few,
        length-append (words (named f c)) (drop (26 + 8 * length (named f c)) out),
        length-words (named f c),
        length-drop (26 + 8 * length (named f c)) out,
        length-drop c.ack_point c.sent_pkt,
      )

      fields : IsHeader (request_header f c.ack_space.next_pkt_num (request_length f c (named f c)))
      fields = record {
        pkt_num_u64 = omega (arith, num_u64);
        priority_u8 = omega arith;
        offset_u64 = omega arith;
        pkt_length_u64 = omega (arith, small);
      }
