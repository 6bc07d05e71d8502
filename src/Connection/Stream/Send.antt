-- ===== src/Connection/Stream/Send.antt =====
-- `Connection::send_data` of src/lib.rs on a sender of a stream: its packets are genuine.
use dmludp.Prelude.{ℕ, ◌≤◌, ◌≡◌, ◌≢◌, sym, ap, ◌∙◌, subst, List, length, some, arith, if-false}
use dmludp.Error.{Result, ok, err, buffer_too_short}
use dmludp.Floats.{Floats}
use dmludp.Octets.{Octets, OctetsLaws}
use dmludp.Packet.{PacketType, application, elict_ack, handshake, ack, stop, retry, fin, start_ack}
use dmludp.Connection.{Connection, write_pkt_type}
use dmludp.Connection.Exchange.{not_nil}
use dmludp.Connection.Paced.{IsPaced}
use dmludp.Connection.Schedule.{send_data-IsPaced}
use dmludp.Connection.Send.{send_data, send_packet, Sent}
use dmludp.Connection.Stream.{
  Goes, Goes-trans, write_pkt_type-Picks, Picks, IsStream, Goes-IsStream,
}
use dmludp.Connection.Stream.Control.{
  Makes, send_handshake-Makes, send_stop-Makes, send_request-Makes,
}
use dmludp.Connection.Stream.Data.{send_application-Makes}

module _ (f : Floats) (o : Octets) (laws : OctetsLaws o) where
  -- A sender of a stream stays one, and what it sends is genuine.
  pub send_data-IsStream :
      (d : List ℕ) (c c' : Connection f) (out out' : List ℕ) (r : Result ℕ) (now : ℕ)
      → 1050 ≤ length out
      → IsStream f d c
      → IsPaced f o c
      → r ≢ err buffer_too_short
      → send_data f o c out now ≡ some (r, c', out')
      → IsStream f d c' × IsPaced f o c' × Makes f o laws d r out'
  unfolding send_data
  send_data-IsStream d c c' out out' r now fits v p long e =
      let paced = send_data-IsPaced f o c c' now out out' r p long e in
      let (g, m) =
        split (write_pkt_type f c) (write_pkt_type-Picks f c v.silent)
          (sym (if-false _ _ _ (not_nil f o laws out (omega (arith, fits)))) ∙ e) in
      (Goes-IsStream f d c c' g v, paced, m)
    where
      split :
          (t : Result PacketType × Connection f)
          → Picks f c t
          → ◌≡◌ {A = Sent f}
              (elim t.0 [ err e ↦ some (err e, t.1, out) | ok ty ↦ send_packet f o ty t.1 out now ])
              (some (r, c', out'))
          → Goes f c c' × Makes f o laws d r out'
      split (err e, c1) (g, s, a, i) q =
          let state : c1 ≡ c' = cc in
          let failed : r ≡ err e = cc in (subst (Goes f c) state g, λ n m. cc)
      split (ok handshake, c1) (g, s, a, i) q =
          let (h, m) =
            send_handshake-Makes f o laws d c1 c' out out' r now (omega (arith, fits)) q in
          (Goes-trans f c c1 c' g h, m)
      split (ok stop, c1) (g, s, a, i) q =
          let (h, m) = send_stop-Makes f o laws d c1 c' out out' r (omega (arith, fits)) q in
          (Goes-trans f c c1 c' g h, m)
      split (ok elict_ack, c1) (g, s, a, i) q =
          let (h, m) =
            send_request-Makes f o laws d c1 c' out out' r fits
              (omega (arith, a, ap length s, p.counted, p.few))
              (omega (arith, a, ap length s, p.counted, p.few)) (g.offsets v.offsets) q in
          (Goes-trans f c c1 c' g h, m)
      split (ok application, c1) (g, s, a, i) q =
          let (h, m) =
            send_application-Makes f o laws d c1 c' out out' r now fits (Goes-IsStream f d c c1 g v)
              q in
          (Goes-trans f c c1 c' g h, m)
      split (ok ack, c1) (g, s, a, i) q = absurd i
      split (ok retry, c1) (g, s, a, i) q = absurd i
      split (ok fin, c1) (g, s, a, i) q = absurd i
      split (ok start_ack, c1) (g, s, a, i) q = absurd i
