-- ===== src/Connection/Acknowledge.antt =====
-- An acknowledgement from the receiver's `send_data` to the sender's `recv_slice`.
use dmludp.Prelude.{
  ℕ, ◌+◌, ◌*◌, ◌/◌, ◌≤◌, ◌<◌, ◌≡◌, refl, ap, ◌∙◌, Bool, true, false, ltb, if◌then◌else◌, List, [],
  ◌++◌, length, drop, Option, some, ◌>>=◌, arith, u64_mod, IsU64, to_be_bytes,
  from_be_bytes-to_be_bytes, length-be_digits, drop-append_of_length, take-append_of_length,
  slice_to-some, add64-some,
}
use dmludp.Error.{ok}
use dmludp.Floats.{Floats}
use dmludp.Octets.{Octets, OctetsLaws}
use dmludp.Packet.{Header, ack}
use dmludp.Packet.RoundTrip.{IsHeader, encoded, slice_from-encoded}
use dmludp.SendBuf.Window.{IsValid}
use dmludp.Recovery.{update_win}
use dmludp.Connection.{Connection, priority_calculation, write_pkt_type, is_stopped, max_ack}
use dmludp.Error.{Result, err}
use dmludp.Packet.{PacketType}
use dmludp.Connection.Wire.{put_ack}
use dmludp.Connection.Send.{
  send_data, send_packet, send_acknowledgement, end_ack, ack_header, finish,
}
use dmludp.Connection.Receive.{process_ack}
use dmludp.Connection.Exchange.{not_nil}
use dmludp.Connection.Closing.{closes, Closed, pair_words, AllPairs}
use dmludp.Connection.Verdicts.{AllKnown, weights, priorities_stay, ack_loop_lem}
use dmludp.Connection.Report.{report, length-report, put_ack_fits}

module _ (f : Floats) (o : Octets) (laws : OctetsLaws o) where
  -- the number of bytes in the packet
  abbrev pub report_size : Connection f → ℕ
  report_size r = length r.recv_hashmap * 8 * 2 + 8

  -- the receiver behind the packet
  abbrev pub reported : Connection f → ℕ → Connection f
  reported r now = record r {
    recv_flag = false;
    feed_back = false;
    recv_hashmap = [];
    handshake_time = now;
  }

  -- The receiver owes an acknowledgement, and can write it.
  pub record Owes (r : Connection f) : Type 0 where
    pub chosen : write_pkt_type f r ≡ (ok ack, record r { recv_flag = false })
    pub runs : is_stopped f r ≡ false
    pub entries : AllPairs r.recv_hashmap
    pub mark : IsU64 (max_ack f r)
    pub number : IsU64 r.send_num
    pub short : 34 + 16 * length r.recv_hashmap < u64_mod

  pub ack_header-IsHeader : (r : Connection f) → Owes r → IsHeader (ack_header f r (report_size r))
  ack_header-IsHeader r owes = record {
    pkt_num_u64 = owes.number;
    priority_u8 = omega arith;
    offset_u64 = omega arith;
    pkt_length_u64 = omega (arith, owes.short);
  }

  pub send_data_chosen :
      (c c1 : Connection f) (t : PacketType) (out : List ℕ) (now : ℕ)
      → 26 ≤ length out
      → write_pkt_type f c ≡ (ok t, c1)
      → send_data f o c out now ≡ send_packet f o t c1 out now
  unfolding send_data
  send_data_chosen c c1 t out now h e = rw (not_nil f o laws out h) (
      ap
        (λ (q : Result PacketType × Connection f). elim q.0 [
          | err e ↦ some (err e, q.1, out)
          | ok t ↦ send_packet f o t q.1 out now
        ])
        e)

  end_ack_lem :
      (r : Connection f) (out : List ℕ) (now : ℕ)
      → Owes r
      → 34 + 16 * length r.recv_hashmap ≤ length out
      → end_ack f
          (put_ack o (ack_header f r (report_size r)) (max_ack f r) r.recv_hashmap out)
          (record r { recv_flag = false; feed_back = false })
          (report_size r)
          now
        ≡ some (
          ok (34 + 16 * length r.recv_hashmap),
          reported r now,
          encoded
              (ack_header f r (report_size r))
              (report (max_ack f r) r.recv_hashmap ++ drop (34 + 16 * length r.recv_hashmap) out),
        )
  unfolding end_ack finish is_stopped
  end_ack_lem r out now owes fits = rw (
    put_ack_fits o laws (ack_header f r (report_size r)) (max_ack f r) r.recv_hashmap out
        (ack_header-IsHeader r owes) owes.mark owes.entries fits,
    owes.runs,
    add64-some 26 (report_size r) (omega (arith, owes.short)),
    total (length r.recv_hashmap),
  )
    where
      total : (n : ℕ) → 26 + (n * 8 * 2 + 8) ≡ 34 + 16 * n
      total n = omega arith

  send_acknowledgement_lem :
      (r : Connection f) (out : List ℕ) (now : ℕ)
      → Owes r
      → 34 + 16 * length r.recv_hashmap ≤ length out
      → send_acknowledgement f o (record r { recv_flag = false }) out now
        ≡ some (
          ok (34 + 16 * length r.recv_hashmap),
          reported r now,
          encoded
              (ack_header f r (report_size r))
              (report (max_ack f r) r.recv_hashmap ++ drop (34 + 16 * length r.recv_hashmap) out),
        )
  unfolding send_acknowledgement
  send_acknowledgement_lem r out now owes fits =
      rw (add64-some (length r.recv_hashmap * 8 * 2) 8 (omega (arith, owes.short)))
        (end_ack_lem r out now owes fits)

  -- the receiver's half
  pub send_data_report :
      (r : Connection f) (out : List ℕ) (now : ℕ)
      → Owes r
      → 34 + 16 * length r.recv_hashmap ≤ length out
      → send_data f o r out now
        ≡ some (
          ok (34 + 16 * length r.recv_hashmap),
          reported r now,
          encoded
              (ack_header f r (report_size r))
              (report (max_ack f r) r.recv_hashmap ++ drop (34 + 16 * length r.recv_hashmap) out),
        )
  unfolding send_packet
  send_data_report r out now owes fits =
      send_data_chosen r (record r { recv_flag = false }) ack out now (omega (arith, fits))
        owes.chosen
      ∙ send_acknowledgement_lem r out now owes fits

  -- what `process_ack` does with the weights of an acknowledgement with `n` entries
  abbrev pub paced : Connection f → f.F32 → ℕ → Option (Connection f)
  paced c w n = do
    recovery ← update_win f c.recovery w (f.of_usize n)
    some (record c { recovery = recovery })

  marked :
      (b : Bool) (c : Connection f) (n : ℕ)
      → (if b then record c { max_off = n } else c)
        ≡ record c { max_off = if b then n else c.max_off }
  marked true c n = refl
  marked false c n = refl

  -- the sender's half, behind the header
  pub process_ack_lem :
      (c : Connection f) (h : Header) (mark : ℕ) (m : List (ℕ × ℕ))
      → IsU64 mark
      → AllPairs m
      → AllKnown f c m
      → c.high_priority + length m < u64_mod
      → IsValid c.send_buffer
      → (c' : Connection f) × (w : f.F32) × (w
          ≡ weights f (priority_calculation f c) m (f.lit32 0 0))
        × (process_ack f c (encoded h (report mark m)) ≡ paced c' w (length m))
        × (c'.recovery ≡ c.recovery)
        × Closed (closes c.sent_dic m) c.send_buffer c'.send_buffer
  unfolding process_ack
  process_ack_lem c h mark m um u known room v =
      let b : Bool = ltb c.max_off mark in
      let c1 : Connection f = record c { max_off = if b then mark else c.max_off } in
      let (w, total, s, n, run, closed) =
        ack_loop_lem f m (length (report mark m)) c1 (f.lit32 0 0)
          (omega (arith, length-report mark m)) u known room v in
      (
        record c1 { send_buffer = s; high_priority = n },
        w,
        total
            ∙ ap (λ p. weights f p m (f.lit32 0 0))
                (priorities_stay f c c.recv_count (if b then mark else c.max_off) c.high_priority
                  c.send_buffer),
        rw
            (
              slice_from-encoded h (report mark m),
              slice_to-some (report mark m) 8 (omega (arith, length-report mark m)),
              take-append_of_length 8 (to_be_bytes mark) (pair_words m) (length-be_digits 8 mark),
              from_be_bytes-to_be_bytes mark um,
              drop-append_of_length 8 (to_be_bytes mark) (pair_words m) (length-be_digits 8 mark),
              marked b c mark,
              run,
              entries,
            )
            refl,
        refl,
        closed,
      )
    where
      entries : length (report mark m) / 16 ≡ length m
      entries = omega (arith, length-report mark m)
