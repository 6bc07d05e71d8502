-- ===== src/Connection/Stream/Acked.antt =====
-- What `Connection::process_ack` of src/lib.rs does not touch.
use dmludp.Prelude.{
  ℕ, zero, suc, ◌≡◌, ◌*◌, ◌/◌, refl, ap, ◌∙◌, subst, Bool, true, false, if◌then◌else◌, ltb, ◌==◌,
  not, ◌&&◌, List, [], ◌∷◌, length, drop, some, arith, bind-some, slice, slice_to, slice_from,
  from_be_bytes,
}
use mathlib.Core.Option.{some-injective}
use dmludp.Floats.{Floats}
use dmludp.SendBuf.{ack_and_drop}
use dmludp.Recovery.{update_win}
use dmludp.Connection.{Connection, priority_calculation}
use dmludp.Connection.Receive.{drop_spent, weigh, count_high, ack_entry, ack_loop, process_ack}

module _ (f : Floats) where
  -- what no packet but a request touches
  abbrev pub Holds : Connection f → Connection f → Type 0
  Holds c c' =
      (c'.send_data ≡ c.send_data)
      × (c'.written_data ≡ c.written_data)
      × (c'.total_offset ≡ c.total_offset)
      × (c'.recv_flag ≡ c.recv_flag)
      × (c'.sent_pkt ≡ c.sent_pkt)
      × (c'.ack_point ≡ c.ack_point)
      × (c'.sent_count ≡ c.sent_count)
      × (c'.send_buffer.off ≡ c.send_buffer.off)
      × (c'.send_buffer.error ≡ c.send_buffer.error)

  Holds-trans : (a b c : Connection f) → Holds a b → Holds b c → Holds a c
  Holds-trans a b c (p0, p1, p2, p3, p4, p5, p6, p7, p8) (q0, q1, q2, q3, q4, q5, q6, q7, q8) =
      (q0 ∙ p0, q1 ∙ p1, q2 ∙ p2, q3 ∙ p3, q4 ∙ p4, q5 ∙ p5, q6 ∙ p6, q7 ∙ p7, q8 ∙ p8)

  pub Holds-refl : (c : Connection f) → Holds c c
  Holds-refl c = (refl, refl, refl, refl, refl, refl, refl, refl, refl)

  -- and what no acknowledgement touches: what a receiver has noted
  abbrev pub Quiet : Connection f → Connection f → Type 0
  Quiet c c' = Holds c c' × (c'.recv_dic ≡ c.recv_dic) × (c'.recv_hashmap ≡ c.recv_hashmap)

  Quiet-trans : (a b c : Connection f) → Quiet a b → Quiet b c → Quiet a c
  Quiet-trans a b c (h, d, m) (h', d', m') = (Holds-trans a b c h h', d' ∙ d, m' ∙ m)

  Quiet-refl : (c : Connection f) → Quiet c c
  Quiet-refl c = (Holds-refl c, refl, refl)

  drop_spent-Quiet : (c : Connection f) (unack : ℕ) → Quiet c (drop_spent f c unack)
  unfolding drop_spent ack_and_drop
  drop_spent-Quiet c unack = ground arith

  weigh-Quiet :
      (c : Connection f) (unack priority : ℕ) (w : f.F32) → Quiet c (weigh f c unack priority w).1
  unfolding weigh ack_and_drop
  weigh-Quiet c unack priority w = ground arith

  count_high-Quiet :
      (c c' : Connection f) (high : Bool) → count_high f c high ≡ some c' → Quiet c c'
  unfolding count_high
  count_high-Quiet c c' high e = ground arith

  ack_entry-Quiet :
      (c c' : Connection f) (unack reported : ℕ) (w w' : f.F32)
      → ack_entry f c unack reported w ≡ some (w', c')
      → Quiet c c'
  unfolding ack_entry
  ack_entry-Quiet c c' unack reported w w' e =
      let c1 : Connection f = drop_spent f c unack in
      let (priority, known, e1) =
        bind-some (if reported == 0 then some 0 else priority_calculation f c1 unack) _ _ e in
      let c2 : Connection f = (weigh f c1 unack priority w).1 in
      let (real, found, e2) = bind-some (priority_calculation f c2 unack) _ _ e1 in
      let (c3, high, e3) =
        bind-some (count_high f c2 (not (priority == 0) && (real == 3))) _ _ e2 in
      let same : c3 ≡ c' = ap (λ q. q.1) (some-injective _ _ e3) in
      subst (Quiet c) same (
        Quiet-trans c c1 c3 (drop_spent-Quiet c unack)
          (Quiet-trans c1 c2 c3 (weigh-Quiet c1 unack priority w) (count_high-Quiet c2 c3 _ high)))

  ack_loop-Quiet :
      (rounds : ℕ) (c c' : Connection f) (rest : List ℕ) (w w' : f.F32)
      → ack_loop f rounds c rest w ≡ some (w', c')
      → Quiet c c'
  unfolding ack_loop
  ack_loop-Quiet rounds c c' [] w w' e =
      subst (Quiet c) (ap (λ q. q.1) (some-injective _ _ e)) (Quiet-refl c)
  ack_loop-Quiet zero c c' (x ∷ rest) w w' e = cc
  ack_loop-Quiet (suc rounds) c c' (x ∷ rest) w w' e =
      let (unack, _, e1) = bind-some (slice_to (x ∷ rest) 8) _ _ e in
      let (reported, _, e2) = bind-some (slice (x ∷ rest) 8 16) _ _ e1 in
      let ((w1, c1), entry, e3) =
        bind-some (ack_entry f c (from_be_bytes unack) (from_be_bytes reported) w) _ _ e2 in
      Quiet-trans c c1 c'
        (ack_entry-Quiet c c1 (from_be_bytes unack) (from_be_bytes reported) w w1 entry)
        (ack_loop-Quiet rounds c1 c' (drop 16 (x ∷ rest)) w1 w' e3)

  pub process_ack-Quiet :
      (c c' : Connection f) (buf : List ℕ) → process_ack f c buf ≡ some c' → Quiet c c'
  unfolding process_ack
  process_ack-Quiet c c' buf e =
      let (unackbuf, _, e1) = bind-some (slice_from buf 26) _ _ e in
      let (mark, _, e2) = bind-some (slice_to unackbuf 8) _ _ e1 in
      let c1 : Connection f =
        if ltb c.max_off (from_be_bytes mark)
        then record c { max_off = from_be_bytes mark }
        else c in
      let ((weights, c2), run, e3) =
        bind-some (ack_loop f (length unackbuf) c1 (drop 8 unackbuf) (f.lit32 0 0)) _ _ e2 in
      let (recovery, updated, e4) =
        bind-some (update_win f c2.recovery weights (f.of_usize (length unackbuf / (8 * 2)))) _ _
          e3 in
      subst (Quiet c) (some-injective _ _ e4) (
        Quiet-trans c c2 (record c2 { recovery = recovery })
          (Quiet-trans c c1 c2 (marked (ltb c.max_off (from_be_bytes mark)) (from_be_bytes mark))
            (ack_loop-Quiet (length unackbuf) c1 c2 (drop 8 unackbuf) (f.lit32 0 0) weights run))
          (Quiet-refl c2))
    where
      marked : (b : Bool) (n : ℕ) → Quiet c (if b then record c { max_off = n } else c)
      marked true n = Quiet-refl c
      marked false n = Quiet-refl c
