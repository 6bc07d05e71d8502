-- ===== src/Connection/Feedback.antt =====
-- An acknowledgement, from the receiver that owes one to the packets that wait at the sender.
use dmludp.Prelude.{
  ℕ, ◌+◌, ◌*◌, ◌≤◌, ◌<◌, ◌≡◌, refl, ap, ◌∙◌, true, ◌==◌, false, Bool, if◌then◌else◌, List, [], ◌++◌,
  length, drop, take, some, ◌>>=◌, arith, u64_mod, add64-some,
}
use dmludp.Error.{ok}
use dmludp.Floats.{Floats}
use dmludp.Octets.{Octets, OctetsLaws}
use dmludp.Packet.{Header, ack, from_slice}
use dmludp.Packet.RoundTrip.{IsHeader, encoded, length-encoded, from_slice-encoded}
use dmludp.SendBuf.Window.{IsValid, window}
use dmludp.Connection.{Connection, max_ack, priority_calculation}
use dmludp.Connection.Send.{send_data, ack_header}
use dmludp.Connection.Receive.{recv_slice, recv_packet, process_ack}
use dmludp.Connection.Exchange.{take-encoded}
use dmludp.Connection.Closing.{close, closes}
use dmludp.Connection.Verdicts.{AllKnown, weights, priorities_stay}
use dmludp.Connection.Report.{report, length-report}
use dmludp.Connection.Acknowledge.{
  report_size, reported, Owes, ack_header-IsHeader, send_data_report, paced, process_ack_lem,
}

pub if_true {ℓ} : {A : Type ℓ} (b : Bool) (x y : A) → b ≡ true → (if b then x else y) ≡ x
if_true b x y e = rw e refl

module _ (f : Floats) (o : Octets) (laws : OctetsLaws o) where
  recv_packet-ack :
      (c : Connection f) (h : Header) (buf : List ℕ) (now : ℕ)
      → c.is_server ≡ true
      → recv_packet f o c ack h buf now ≡ (do c1 ← process_ack f c buf; some (ok 0, c1))
  unfolding recv_packet
  recv_packet-ack c h buf now server = if_true c.is_server _ _ server

  pub recv_slice-recv_packet :
      (c : Connection f) (h : Header) (buf : List ℕ) (now : ℕ)
      → (length buf == 0) ≡ false
      → from_slice o buf ≡ ok h
      → c.recv_count + 1 < u64_mod
      → recv_slice f o c buf now
        ≡ recv_packet f o (record c { recv_count = c.recv_count + 1 }) h.ty h buf now
  unfolding recv_slice
  recv_slice-recv_packet c h buf now e parsed counted =
      rw (e, add64-some c.recv_count 1 counted, parsed) refl

  recv_slice-ack :
      (c r : Connection f) (size : ℕ) (rest : List ℕ) (now : ℕ)
      → IsHeader (ack_header f r size)
      → c.is_server ≡ true
      → c.recv_count + 1 < u64_mod
      → recv_slice f o c (encoded (ack_header f r size) rest) now ≡ (do
        c1 ←
            process_ack f
              (record c { recv_count = c.recv_count + 1 })
              (encoded (ack_header f r size) rest)
        some (ok 0, c1))
  recv_slice-ack c r size rest now v server counted =
      recv_slice-recv_packet c (ack_header f r size) (encoded (ack_header f r size) rest) now
        (ap (λ n. n == 0) (length-encoded (ack_header f r size) rest) ∙ not_empty (length rest))
        (from_slice-encoded o laws (ack_header f r size) rest v) counted
      ∙ recv_packet-ack (record c { recv_count = c.recv_count + 1 }) (ack_header f r size)
          (encoded (ack_header f r size) rest) now server
    where
      not_empty : (n : ℕ) → (26 + n == 0) ≡ false
      not_empty n = ground arith

  -- An acknowledgement ends the waiting of what has arrived. A receiver that owes an acknowledgement
  -- makes a packet with all that it holds of the packets that it was asked about, and forgets it. The
  -- sender that is given this packet adapts its window by the number of the entries and the sum of
  -- the weights of those that are missing, each by the priority of its packet; apart from that, the
  -- packets in its send buffer stay as they are, and exactly those cease to wait that the receiver
  -- has reported as arrived (0), or that may not be sent again. (Conditions: the sender is a server with a valid buffer and has norms for the offsets that
  -- are named, counters stay below 2 ^ 64, and the buffer has room for the packet.)
  pub acknowledgement_is_processed :
      (r c : Connection f) (out : List ℕ) (now later : ℕ)
      → Owes f o laws r
      → AllKnown f c r.recv_hashmap
      → IsValid c.send_buffer
      → c.is_server ≡ true
      → c.recv_count + 1 < u64_mod
      → c.high_priority + length r.recv_hashmap < u64_mod
      → 34 + 16 * length r.recv_hashmap ≤ length out
      → let n = 34 + 16 * length r.recv_hashmap in
        (r' c' : Connection f) × (out' : List ℕ) × (w : f.F32) × (send_data f o r out now
          ≡ some (ok n, r', out'))
        × (w ≡ weights f (priority_calculation f c) r.recv_hashmap (f.lit32 0 0))
        × (r'.recv_hashmap ≡ [])
        × (recv_slice f o c (take n out') later
            ≡ (do c'' ← paced f o laws c' w (length r.recv_hashmap); some (ok 0, c'')))
        × (c'.recovery ≡ c.recovery)
        × IsValid c'.send_buffer
        × (window c'.send_buffer ≡ close (closes c.sent_dic r.recv_hashmap) (window c.send_buffer))
  acknowledgement_is_processed r c out now later owes known v server counted room fits =
      let h : Header = ack_header f r (report_size f o laws r) in
      let packet : List ℕ = report (max_ack f r) r.recv_hashmap in
      let (c', w, weighed, run, kept, (valid, closed)) =
        process_ack_lem f o laws (record c { recv_count = c.recv_count + 1 }) h (max_ack f r)
          r.recv_hashmap owes.mark owes.entries known room v in
      (
        reported f o laws r now,
        c',
        encoded h (packet ++ drop (34 + 16 * length r.recv_hashmap) out),
        w,
        send_data_report f o laws r out now owes fits,
        weighed
            ∙ ap (λ p. weights f p r.recv_hashmap (f.lit32 0 0))
                (priorities_stay f c (c.recv_count + 1) c.max_off c.high_priority c.send_buffer),
        refl,
        ap (λ xs. recv_slice f o c xs later) cut
            ∙ recv_slice-ack c r (report_size f o laws r) packet later
                (ack_header-IsHeader f o laws r owes) server counted
            ∙ ap (λ x. do c1 ← x; some (ok 0, c1)) run,
        kept,
        valid,
        closed,
      )
    where
      cut :
          take (34 + 16 * length r.recv_hashmap) (
            encoded
              (ack_header f r (report_size f o laws r))
              (report (max_ack f r) r.recv_hashmap ++ drop (34 + 16 * length r.recv_hashmap) out))
          ≡ encoded (ack_header f r (report_size f o laws r)) (report (max_ack f r) r.recv_hashmap)
      cut =
          ap
            (λ n. take n (
              encoded (ack_header f r (report_size f o laws r)) (
                report (max_ack f r) r.recv_hashmap ++ drop (34 + 16 * length r.recv_hashmap) out)))
            (omega (arith, length-report (max_ack f r) r.recv_hashmap))
          ∙ take-encoded (ack_header f r (report_size f o laws r))
              (report (max_ack f r) r.recv_hashmap) _
