-- ===== src/Connection/Handshake.antt =====
-- The handshake: the server asks, the client answers, and the server knows the round-trip time.
use dmludp.Prelude.{
  ℕ, ◌+◌, ◌-◌, ◌≤◌, ◌<◌, ◌≡◌, refl, ap, ◌∙◌, true, false, ◌==◌, Bool, if◌then◌else◌, List, [],
  length, drop, take, some, arith, u64_mod,
}
use dmludp.Error.{Result, ok, err}
use dmludp.Floats.{Floats}
use dmludp.Octets.{Octets, OctetsLaws}
use dmludp.Packet.{handshake}
use dmludp.Packet.RoundTrip.{IsHeader, encoded, length-encoded, from_slice-encoded}
use dmludp.Connection.{
  Connection, write_pkt_type, is_stopped, set_handshake, update_rtt, is_established,
}
use dmludp.Connection.Send.{send_data, send_packet, send_handshake, finish, bare}
use dmludp.Connection.Receive.{recv_slice, recv_packet, recv_handshake}
use dmludp.Connection.Exchange.{take-encoded}
use dmludp.Connection.Dispatch.{put_header_fits, and_false}
use dmludp.Connection.Acknowledge.{send_data_chosen}
use dmludp.Connection.Feedback.{recv_slice-recv_packet, if_true}

if_false {ℓ} : {A : Type ℓ} (b : Bool) (x y : A) → b ≡ false → (if b then x else y) ≡ y
if_false b x y e = rw e refl

bare-IsHeader : (f : Floats) → IsHeader (bare f handshake)
bare-IsHeader f = record {
  pkt_num_u64 = omega arith;
  priority_u8 = omega arith;
  offset_u64 = omega arith;
  pkt_length_u64 = omega arith;
}

module _ (f : Floats) where
  -- the side that has sent its part at the time `now`
  abbrev pub shook : Connection f → Bool → ℕ → Connection f
  shook c server now = record (if server then c else record c { feed_back = false }) {
    handshake_time = now;
  }

  finish_handshake :
      (c : Connection f) (server : Bool) (out : List ℕ) (now : ℕ)
      → is_stopped f c ≡ false
      → finish f
          (if server then set_handshake f c now else record c { feed_back = false })
          0
          out
          now
        ≡ some (ok 26, shook c server now, out)
  unfolding finish is_stopped set_handshake
  finish_handshake c true out now e = rw e refl
  finish_handshake c false out now e = rw e refl

module _ (f : Floats) (o : Octets) (laws : OctetsLaws o) where
  put_handshake :
      (c : Connection f) (out : List ℕ) (now : ℕ)
      → 26 ≤ length out
      → send_handshake f o c out now
        ≡ finish f
            (if c.server then set_handshake f c now else record c { feed_back = false })
            0
            (encoded (bare f handshake) (drop 26 out))
            now
  unfolding send_handshake
  put_handshake c out now fits =
      ap
        (λ (q : Result (Unit {0}) × List ℕ). elim q.0 [
          | err e ↦ some (err e, c, q.1)
          | ok _ ↦
              finish f (if c.server then set_handshake f c now else record c { feed_back = false })
                0 q.1 now
        ])
        (put_header_fits o laws (bare f handshake) out (bare-IsHeader f) fits)

  send_handshake_lem :
      (c c1 : Connection f) (out : List ℕ) (now : ℕ)
      → write_pkt_type f c ≡ (ok handshake, c1)
      → is_stopped f c1 ≡ false
      → 26 ≤ length out
      → send_data f o c out now
        ≡ some (ok 26, shook f c1 c1.server now, encoded (bare f handshake) (drop 26 out))
  unfolding send_packet
  send_handshake_lem c c1 out now e running fits =
      send_data_chosen f o laws c c1 handshake out now fits e
      ∙ put_handshake c1 out now fits
      ∙ finish_handshake f c1 c1.server (encoded (bare f handshake) (drop 26 out)) now running

  recv_handshake_lem :
      (c : Connection f) (out : List ℕ) (now : ℕ)
      → c.recv_count + 1 < u64_mod
      → recv_slice f o c (take 26 (encoded (bare f handshake) (drop 26 out))) now
        ≡ some (ok 0, recv_handshake f (record c { recv_count = c.recv_count + 1 }) now)
  unfolding recv_packet
  recv_handshake_lem c out now counted =
      ap (λ xs. recv_slice f o c xs now) (take-encoded (bare f handshake) [] (drop 26 out))
      ∙ recv_slice-recv_packet f o laws c (bare f handshake) (encoded (bare f handshake) []) now
          (ap (λ n. n == 0) (length-encoded (bare f handshake) []))
          (from_slice-encoded o laws (bare f handshake) [] (bare-IsHeader f)) counted

  -- A server that has no round-trip time yet, and a client
  pub record Waits (s : Connection f) : Type 0 where
    pub no_rtt : s.rtt ≡ 0
    pub is_server : s.is_server ≡ true
    pub server : s.server ≡ true
    pub running : s.stop_flag ≡ false
    pub counted : s.recv_count + 1 < u64_mod

  pub record Listens (k : Connection f) : Type 0 where
    pub is_client : k.is_server ≡ false
    pub client : k.server ≡ false
    pub running : k.stop_flag ≡ false
    pub counted : k.recv_count + 1 < u64_mod

  runs : (c : Connection f) → c.stop_flag ≡ false → is_stopped f c ≡ false
  unfolding is_stopped
  runs c e = rw e refl

  server_asks :
      (s : Connection f)
      → Waits s
      → write_pkt_type f s ≡ (ok handshake, record s { handshake_completed = true })
  unfolding write_pkt_type
  server_asks s w = rw (w.no_rtt, w.is_server) refl

  client_answers :
      (k : Connection f)
      → k.is_server ≡ false
      → k.handshake_confirmed ≡ false
      → write_pkt_type f k ≡ (ok handshake, record k { handshake_confirmed = true })
  unfolding write_pkt_type
  client_answers k p q = rw (p, q, and_false (k.rtt == 0)) refl

  client_hears :
      (k : Connection f) (now : ℕ)
      → k.is_server ≡ false
      → recv_handshake f k now ≡ record k { handshake_confirmed = false; feed_back = true }
  unfolding recv_handshake
  client_hears k now e = if_false k.is_server _ _ e

  server_hears :
      (s : Connection f) (now : ℕ)
      → s.is_server ≡ true
      → recv_handshake f s now ≡ record (update_rtt f s now) { handshake_completed = true }
  unfolding recv_handshake
  server_hears s now e = if_true s.is_server _ _ e

  -- The handshake completes. A server that has no round-trip time sends a packet of 26 bytes; a client
  -- that is given it answers with one of 26 bytes; and the server that is given the answer is
  -- established, and its round-trip time is the time from its packet to the answer. (Conditions:
  -- neither side is stopped, both buffers have room for a header, counters stay below 2 ^ 64.)
  pub handshake_completes :
      (s k : Connection f) (out back : List ℕ) (t0 t1 t2 t3 : ℕ)
      → Waits s
      → Listens k
      → 26 ≤ length out
      → 26 ≤ length back
      → (s1 k1 k2 s2 : Connection f) × (asked answered : List ℕ) × (send_data f o s out t0
          ≡ some (ok 26, s1, asked))
        × (recv_slice f o k (take 26 asked) t1 ≡ some (ok 0, k1))
        × (send_data f o k1 back t2 ≡ some (ok 26, k2, answered))
        × (recv_slice f o s1 (take 26 answered) t3 ≡ some (ok 0, s2))
        × (is_established f s2 ≡ true)
        × (s2.rtt ≡ t3 - t0)
        × (k2.handshake_confirmed ≡ true)
  unfolding is_established update_rtt
  handshake_completes s k out back t0 t1 t2 t3 w l room room' =
      let c0 : Connection f = record s { handshake_completed = true } in
      let s1 : Connection f = shook f c0 true t0 in
      let k0 : Connection f = record k { recv_count = k.recv_count + 1 } in
      let k1 : Connection f = record k0 { handshake_confirmed = false; feed_back = true } in
      let k2 : Connection f = shook f (record k1 { handshake_confirmed = true }) false t2 in
      let s' : Connection f = record s1 { recv_count = s.recv_count + 1 } in
      (
        s1,
        k1,
        k2,
        record (update_rtt f s' t3) { handshake_completed = true },
        encoded (bare f handshake) (drop 26 out),
        encoded (bare f handshake) (drop 26 back),
        send_handshake_lem s c0 out t0 (server_asks s w) (runs c0 w.running) room
            ∙ ap (λ b. some (ok 26, shook f c0 b t0, encoded (bare f handshake) (drop 26 out)))
                w.server,
        recv_handshake_lem k out t1 l.counted
            ∙ ap (λ c. some (ok 0, c)) (client_hears k0 t1 l.is_client),
        send_handshake_lem k1 (record k1 { handshake_confirmed = true }) back t2
              (client_answers k1 l.is_client refl)
              (runs (record k1 { handshake_confirmed = true }) l.running) room'
            ∙ ap
                (λ b. some (
                  ok 26,
                  shook f (record k1 { handshake_confirmed = true }) b t2,
                  encoded (bare f handshake) (drop 26 back),
                ))
                l.client,
        recv_handshake_lem s1 back t3 w.counted
            ∙ ap (λ c. some (ok 0, c)) (server_hears s' t3 w.is_server),
        refl,
        rw (ap (λ n. n == 0) w.no_rtt) refl,
        refl,
      )
