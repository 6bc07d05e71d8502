-- ===== src/Connection/Schedule.antt =====
-- `Connection::send_data` in every branch that `write_pkt_type` chooses.
use dmludp.Prelude.{
  ℕ, ◌<◌, ◌≡◌, ◌≢◌, refl, subst, sym, ◌∙◌, Bool, true, false, if◌then◌else◌, List, some, arith,
  Bool-cases, if-false, ltb, ◌&&◌, ◌||◌, not, inl, inr, ◌%◌, ◌==◌,
}
use dmludp.Error.{Error, Result, ok, err, done, buffer_too_short}
use dmludp.Floats.{Floats}
use dmludp.Octets.{Octets}
use dmludp.Packet.{PacketType, application, elict_ack, handshake, ack, stop, retry, fin, start_ack}
use dmludp.SendBuf.{is_nil}
use dmludp.Connection.{Connection, write_pkt_type}
use dmludp.Connection.Send.{send_packet, send_data, Sent}
use dmludp.Connection.Paced.{
  IsPaced, Same, Same-IsPaced, finish-Same, send_handshake-Same, send_acknowledgement-Same,
  send_stop-Same, OneMore, send_application-fields, send_request-IsPaced,
}

module _ (f : Floats) (o : Octets) where
  -- what `write_pkt_type` leaves for the branch that it chooses
  abbrev Chosen : Type 0
  Chosen = Result PacketType × Connection f

  Ready : Chosen → Type 0
  Ready (ok elict_ack, c) = c.sent_count ≡ 0
  Ready (ok application, c) = IsPaced f o c × (c.sent_count < 8)
  Ready (_, c) = IsPaced f o c

  Ready-handshake : (c : Connection f) → IsPaced f o c → Ready (ok handshake, c)
  unfolding Ready
  Ready-handshake c v = v

  Ready-ack : (c : Connection f) → IsPaced f o c → Ready (ok ack, c)
  unfolding Ready
  Ready-ack c v = v

  Ready-stop : (c : Connection f) → IsPaced f o c → Ready (ok stop, c)
  unfolding Ready
  Ready-stop c v = v

  Ready-err : (c : Connection f) (e : Error) → IsPaced f o c → Ready (err e, c)
  unfolding Ready
  Ready-err c e v = v

  Ready-application :
      (c : Connection f) → IsPaced f o c → c.sent_count < 8 → Ready (ok application, c)
  unfolding Ready
  Ready-application c v h = (v, h)

  Ready-elict_ack : (c : Connection f) → c.sent_count ≡ 0 → Ready (ok elict_ack, c)
  unfolding Ready
  Ready-elict_ack c z = z

  choose :
      (b : Bool) (x y : Result PacketType × Connection f)
      → Ready x
      → (b ≡ false → Ready y)
      → Ready (if b then x else y)
  choose true x y p q = p
  choose false x y p q = q refl

  write_pkt_type-Ready : (c : Connection f) → IsPaced f o c → Ready (write_pkt_type f c)
  unfolding write_pkt_type
  write_pkt_type-Ready c v =
      let idle : Chosen = if is_nil c.send_buffer.chunks then (ok stop, c) else (err done, c) in
      let packet : Chosen = if not (c.rtt == 0) then (ok application, c) else idle in
      let answer : Chosen =
        if c.recv_flag then (ok ack, record c { recv_flag = false }) else packet in
      let request : Chosen =
        if (c.sent_count % 8 == 0 && ltb 0 c.sent_count) || c.stop_flag
        then (ok elict_ack, record c { sent_count = 0 })
        else answer in
      let reply : Chosen =
        if not c.handshake_confirmed && not c.is_server
        then (ok handshake, record c { handshake_confirmed = true })
        else request in
      choose (c.rtt == 0 && c.is_server) (ok handshake, record c { handshake_completed = true })
        reply (Ready-handshake _ (kept v (refl, refl, refl)))
        (λ _.
          choose (not c.handshake_confirmed && not c.is_server)
            (ok handshake, record c { handshake_confirmed = true }) request
            (Ready-handshake _ (kept v (refl, refl, refl)))
            (λ _.
              choose ((c.sent_count % 8 == 0 && ltb 0 c.sent_count) || c.stop_flag)
                (ok elict_ack, record c { sent_count = 0 }) answer (Ready-elict_ack _ refl)
                (λ d.
                  choose c.recv_flag (ok ack, record c { recv_flag = false }) packet
                    (Ready-ack _ (kept v (refl, refl, refl)))
                    (λ _.
                      choose (not (c.rtt == 0)) (ok application, c) idle
                        (Ready-application c v (below d))
                        (λ _.
                          choose (is_nil c.send_buffer.chunks) (ok stop, c) (err done, c)
                            (Ready-stop c v) (λ _. Ready-err c done v))))))
    where
      kept : {c' : Connection f} → IsPaced f o c → Same f o c c' → IsPaced f o c'
      kept v s = Same-IsPaced f o _ _ s v

      below :
          ((c.sent_count % 8 == 0 && ltb 0 c.sent_count) || c.stop_flag) ≡ false → c.sent_count < 8
      below d = ground (arith, v.few)

  OneMore-IsPaced :
      (c c' : Connection f) → c.sent_count < 8 → OneMore f o c c' → IsPaced f o c → IsPaced f o c'
  OneMore-IsPaced c c' h (p, a, n) v = omega (arith, h, p, a, n, v)

  send_packet-IsPaced :
      (t : Result PacketType × Connection f) (c' : Connection f) (now : ℕ) (out out' : List ℕ)
      (r : Result ℕ)
      → Ready t
      → r ≢ err buffer_too_short
      → ◌≡◌ {A = Sent f}
          (elim t.0 [ err e ↦ some (err e, t.1, out) | ok ty ↦ send_packet f o ty t.1 out now ])
          (some (r, c', out'))
      → IsPaced f o c'
  unfolding send_packet Ready
  send_packet-IsPaced (err e, c) c' now out out' r w long q = subst (IsPaced f o) same w
    where
      same : c ≡ c'
      same = cc
  send_packet-IsPaced (ok elict_ack, c) c' now out out' r w long q =
      send_request-IsPaced f o c c' out out' r long w q
  send_packet-IsPaced (ok application, c) c' now out out' r (v, h) long q =
      elim (send_application-fields f o c c' now out out' r long q) [
        | inl same ↦ Same-IsPaced f o c c' same v
        | inr more ↦ OneMore-IsPaced c c' h more v
      ]
  send_packet-IsPaced (ok handshake, c) c' now out out' r w long q =
      Same-IsPaced f o c c' (send_handshake-Same f o c c' now out out' r q) w
  send_packet-IsPaced (ok ack, c) c' now out out' r w long q =
      Same-IsPaced f o c c' (send_acknowledgement-Same f o c c' now out out' r q) w
  send_packet-IsPaced (ok stop, c) c' now out out' r w long q =
      Same-IsPaced f o c c' (send_stop-Same f o c c' out out' r q) w
  send_packet-IsPaced (ok retry, c) c' now out out' r w long q =
      Same-IsPaced f o c c' (finish-Same f o c c' 0 now out out' r q) w
  send_packet-IsPaced (ok fin, c) c' now out out' r w long q =
      Same-IsPaced f o c c' (finish-Same f o c c' 0 now out out' r q) w
  send_packet-IsPaced (ok start_ack, c) c' now out out' r w long q =
      Same-IsPaced f o c c' (finish-Same f o c c' 0 now out out' r q) w

  -- `send_data` keeps its pace, whatever it sends, and also where it reports that there is nothing
  -- to send: the offsets that no request has named yet are those of the data packets sent since
  -- the last request, and there are never more than 8. (Condition: the buffer is not too short for
  -- the packet.)
  pub send_data-IsPaced :
      (c c' : Connection f) (now : ℕ) (out out' : List ℕ) (r : Result ℕ)
      → IsPaced f o c
      → r ≢ err buffer_too_short
      → send_data f o c out now ≡ some (r, c', out')
      → IsPaced f o c'
  unfolding send_data
  send_data-IsPaced c c' now out out' r v long e = elim (Bool-cases (is_nil out)) [
    | inl nothing ↦ absurd (long (short nothing))
    | inr room ↦
        send_packet-IsPaced (write_pkt_type f c) c' now out out' r (write_pkt_type-Ready c v) long
          (sym (if-false _ _ _ room) ∙ e)
  ]
    where
      short : is_nil out ≡ true → r ≡ err buffer_too_short
      short nothing = ground arith
