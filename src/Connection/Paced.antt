-- ===== src/Connection/Paced.antt =====
-- The pace of `Connection::send_data`: how many packets are sent between two requests for
-- acknowledgement.
use dmludp.Prelude.{
  ℕ, ◌+◌, ◌≤◌, ◌≡◌, ◌≢◌, refl, ap, sym, ◌∙◌, Bool, List, [], ◌∷◌, length, some, arith,
  length-append, bind-some, slice_from, Bool-cases, if-false, leb, add64, ◌⊎◌, inl, inr,
}
use dmludp.Error.{Error, Result, ok, err, buffer_too_short}
use dmludp.Floats.{Floats}
use dmludp.Octets.{Octets}
use dmludp.Packet.{Header}
use dmludp.SendBuf.{emit}
use dmludp.Connection.{Connection}
use dmludp.Connection.Wire.{put_header, put_header-IsShort, put_request, put_request-IsShort}
use dmludp.Connection.Send.{
  finish, send_offsets, request_header, request_length, pending, end_request, count_chunk,
  end_chunk, header_length, send_chunk, send_emitted, send_application, send_request,
  send_acknowledgement, send_handshake, send_stop,
}

module _ (f : Floats) (o : Octets) where
  -- The offsets that no request has named yet are those of the data packets that are counted, and
  -- there are at most 8 of them.
  pub record IsPaced (c : Connection f) : Type 0 where
    pub counted : length c.sent_pkt ≡ c.ack_point + c.sent_count
    pub few : c.sent_count ≤ 8

  abbrev pub Same : Connection f → Connection f → Type 0
  Same c c' =
      (c'.sent_pkt ≡ c.sent_pkt) × (c'.ack_point ≡ c.ack_point) × (c'.sent_count ≡ c.sent_count)

  pub Same-IsPaced : (c c' : Connection f) → Same c c' → IsPaced c → IsPaced c'
  Same-IsPaced c c' (p, a, n) v = omega (arith, ap length p, a, n, v)

  pub finish-Same :
      (c c' : Connection f) (psize now : ℕ) (out out' : List ℕ) (r : Result ℕ)
      → finish f c psize out now ≡ some (r, c', out')
      → Same c c'
  unfolding finish
  finish-Same c c' psize now out out' r e = ground arith

  pub send_handshake-Same :
      (c c' : Connection f) (now : ℕ) (out out' : List ℕ) (r : Result ℕ)
      → send_handshake f o c out now ≡ some (r, c', out')
      → Same c c'
  unfolding send_handshake
  send_handshake-Same c c' now out out' r e = ground arith

  pub send_acknowledgement-Same :
      (c c' : Connection f) (now : ℕ) (out out' : List ℕ) (r : Result ℕ)
      → send_acknowledgement f o c out now ≡ some (r, c', out')
      → Same c c'
  unfolding send_acknowledgement
  send_acknowledgement-Same c c' now out out' r e = ground arith

  pub send_stop-Same :
      (c c' : Connection f) (out out' : List ℕ) (r : Result ℕ)
      → send_stop f o c out ≡ some (r, c', out')
      → Same c c'
  unfolding send_stop
  send_stop-Same c c' out out' r e = ground arith

  send_request-fields :
      (c c' : Connection f) (out out' : List ℕ) (r : Result ℕ)
      → send_request f o c out ≡ some (r, c', out')
      → (c'.sent_pkt ≡ c.sent_pkt) × (c'.sent_count ≡ c.sent_count)
  unfolding send_request
  send_request-fields c c' out out' r e = ground arith

  count_chunk-fields :
      (c c1 : Connection f) (off priority : ℕ)
      → count_chunk f c off ≡ some (priority, c1)
      → (c1.sent_pkt ≡ c.sent_pkt)
        × (c1.ack_point ≡ c.ack_point)
        × (c1.sent_count ≡ c.sent_count + 1)
  unfolding count_chunk
  count_chunk-fields c c1 off priority e = ground arith

  -- one more data packet than before
  abbrev pub OneMore : Connection f → Connection f → Type 0
  OneMore c c' =
      (length c'.sent_pkt ≡ length c.sent_pkt + 1)
      × (c'.ack_point ≡ c.ack_point)
      × (c'.sent_count ≡ c.sent_count + 1)

  end_chunk-fields :
      (p : Result (Unit {0}) × List ℕ) (c1 c' : Connection f) (n off now : ℕ) (stopped : Bool)
      (out' : List ℕ) (r : Result ℕ)
      → ((e : Error) (out : List ℕ) → p ≡ (err e, out) → e ≡ buffer_too_short)
      → r ≢ err buffer_too_short
      → end_chunk f p c1 n off stopped now ≡ some (r, c', out')
      → (length c'.sent_pkt ≡ length c1.sent_pkt + 1)
        × (c'.ack_point ≡ c1.ack_point)
        × (c'.sent_count ≡ c1.sent_count)
  unfolding end_chunk
  end_chunk-fields (err e1, out) c1 c' n off now stopped out' r short long e =
      absurd (long (same ∙ ap err (short e1 out refl)))
    where
      same : r ≡ err e1
      same = cc
  end_chunk-fields (ok u, out) c1 c' n off now stopped out' r short long e =
      let (p, a, m) = finish-Same _ c' n now out out' r e in
      (ap length p ∙ length-append c1.sent_pkt (off ∷ []), a, m)

  send_chunk-fields :
      (c c' : Connection f) (n off now : ℕ) (stopped : Bool) (out out' : List ℕ) (r : Result ℕ)
      → r ≢ err buffer_too_short
      → send_chunk f o c n off stopped out now ≡ some (r, c', out')
      → OneMore c c'
  unfolding send_chunk
  send_chunk-fields c c' n off now stopped out out' r long e =
      let ((priority, c1), counted, ended) = bind-some (count_chunk f c off) _ _ e in
      let (p, a, m) = count_chunk-fields c c1 off priority counted in
      let (p', a', m') =
        end_chunk-fields (put_header o _ out) c1 c' n off now stopped out' r
          (λ e' out1 q. put_header-IsShort o _ out out1 e' q) long ended in
      (p' ∙ ap (λ xs. length xs + 1) p, a' ∙ a, m' ∙ m)

  send_emitted-fields :
      (res : Result (ℕ × ℕ × Bool)) (c c' : Connection f) (now : ℕ) (out out' : List ℕ)
      (r : Result ℕ)
      → r ≢ err buffer_too_short
      → send_emitted f o res c out now ≡ some (r, c', out')
      → Same c c' ⊎ OneMore c c'
  unfolding send_emitted
  send_emitted-fields (err e1) c c' now out out' r long e =
      inl (finish-Same c c' 0 now out out' r e)
  send_emitted-fields (ok (n, off, stopped)) c c' now out out' r long e =
      elim (Bool-cases (leb c.written_data off)) [
        | inl behind ↦ inl (ground (arith, behind, e))
        | inr new ↦ inr (
            send_chunk-fields c c' n off now stopped out out' r long (sym (if-false _ _ _ new) ∙ e))
      ]

  pub send_application-fields :
      (c c' : Connection f) (now : ℕ) (out out' : List ℕ) (r : Result ℕ)
      → r ≢ err buffer_too_short
      → send_application f o c out now ≡ some (r, c', out')
      → Same c c' ⊎ OneMore c c'
  unfolding send_application
  send_application-fields c c' now out out' r long e =
      let (payload, cut, e1) = bind-some (slice_from out header_length) _ _ e in
      let ((res, buffer, filled), emitted, e2) = bind-some (emit c.send_buffer payload) _ _ e1 in
      send_emitted-fields res (record c { send_buffer = buffer }) c' now _ out' r long e2

  end_request-IsPaced :
      (p : Result (Unit {0}) × List ℕ) (c c' : Connection f) (psize : ℕ) (out' : List ℕ)
      (r : Result ℕ)
      → ((e : Error) (out : List ℕ) → p ≡ (err e, out) → e ≡ buffer_too_short)
      → r ≢ err buffer_too_short
      → c.sent_count ≡ 0
      → end_request f p c psize ≡ some (r, c', out')
      → IsPaced c'
  unfolding end_request
  end_request-IsPaced (err e1, out) c c' psize out' r short long z e =
      absurd (long (same ∙ ap err (short e1 out refl)))
    where
      same : r ≡ err e1
      same = cc
  end_request-IsPaced (ok u, out) c c' psize out' r short long z e =
      let (p, a, n) = fields in
      record { counted = omega (arith, ap length p, a, n, z); few = omega (arith, n, z) }
    where
      fields :
          (c'.sent_pkt ≡ c.sent_pkt)
          × (c'.ack_point ≡ length c.sent_pkt)
          × (c'.sent_count ≡ c.sent_count)
      fields = ground arith

  send_offsets-IsPaced :
      (c c' : Connection f) (pkt_num : ℕ) (out out' : List ℕ) (r : Result ℕ)
      → r ≢ err buffer_too_short
      → c.sent_count ≡ 0
      → send_offsets f o c pkt_num out ≡ some (r, c', out')
      → IsPaced c'
  unfolding send_offsets
  send_offsets-IsPaced c c' pkt_num out out' r long z e =
      let (offsets, cut, e1) = bind-some (pending f c) _ _ e in
      let h : Header = request_header f pkt_num (request_length f c offsets) in
      let (p, written, e2) = bind-some (put_request o h offsets out) _ _ e1 in
      end_request-IsPaced p c c' _ out' r
        (λ e' out1 q. put_request-IsShort o h offsets out out1 e' (written ∙ ap some q)) long z e2

  pub send_request-IsPaced :
      (c c' : Connection f) (out out' : List ℕ) (r : Result ℕ)
      → r ≢ err buffer_too_short
      → c.sent_count ≡ 0
      → send_request f o c out ≡ some (r, c', out')
      → IsPaced c'
  unfolding send_request
  send_request-IsPaced c c' out out' r long z e =
      let (n, counted, e1) = bind-some (add64 c.ack_space.next_pkt_num 1) _ _ e in
      send_offsets-IsPaced _ c' c.ack_space.next_pkt_num out out' r long z e1
