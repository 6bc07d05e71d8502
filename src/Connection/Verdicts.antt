-- ===== src/Connection/Verdicts.antt =====
-- What `Connection::process_ack` does for the entries of an acknowledgement: which packets of the
-- window cease to wait.
use dmludp.Prelude.{
  ℕ, zero, suc, ◌+◌, ◌/◌, ◌≤◌, ◌<◌, ◌≡◌, refl, sym, ap, ◌∙◌, Bool, true, false, ◌==◌, not, ◌&&◌,
  Option, none, if◌then◌else◌, List, [], ◌∷◌, drop, take, slice_to-some, length, some, arith,
  get_elem?-some, u64_mod, from_be_bytes, add64-some,
}
use dmludp.Floats.{Floats}
use dmludp.SendBuf.{SendBuf}
use dmludp.SendBuf.Window.{IsValid, window}
use dmludp.Connection.{Connection, priority_calculation}
use dmludp.Connection.Receive.{drop_packet, drop_spent, weigh, count_high, ack_entry, ack_loop}
use dmludp.Connection.Closing.{
  is_spent, closes, close_never, close_ext, Closed, Closed-trans, Closed-if, shut, pair_words,
  AllPairs, slice_8_16, words_long, drop_pair, first_words,
}

module _ (f : Floats) where
  -- There is a norm for each offset that is named.
  abbrev pub AllKnown : Connection f → List (ℕ × ℕ) → Type 0
  AllKnown c [] = Unit
  AllKnown c ((k, v) ∷ m) = (k / 1024 < length c.norm2_vec) × AllKnown c m

  pub known_priority :
      (c : Connection f) (k : ℕ)
      → k / 1024 < length c.norm2_vec
      → (p : ℕ) × (0 < p) × (p ≤ 3) × (priority_calculation f c k ≡ some p)
  unfolding priority_calculation
  known_priority c k h =
      let (x, e) = get_elem?-some c.norm2_vec (k / 1024) h in
      let p : ℕ =
        if f.lt32 x c.low_split_point then 1 else if f.lt32 x c.high_split_point then 2 else 3 in
      (p, ground arith, ground arith, rw e refl)

  -- What an entry that is reported as missing adds, by the priority of its packet: 0.15, 0.2 or 0.25
  unfoldable pub heavier : Option ℕ → f.F32 → f.F32
  heavier none w = w
  heavier (some p) w =
      if p == 1
      then f.add32 w (f.lit32 15 2)
      else if p == 2
      then f.add32 w (f.lit32 2 1)
      else f.add32 w (f.lit32 25 2)

  -- The weights of all entries, where `priority` gives the priority of an offset: what is reported as
  -- arrived (0) adds nothing.
  abbrev pub weights : (ℕ → Option ℕ) → List (ℕ × ℕ) → f.F32 → f.F32
  weights priority [] w = w
  weights priority ((k, v) ∷ m) w =
      weights priority m (if v == 0 then w else heavier (priority k) w)

  drop_spent_lem :
      (c : Connection f) (k : ℕ)
      → drop_spent f c k ≡ record c { send_buffer = shut (is_spent c.sent_dic k) k c.send_buffer }
  unfolding drop_spent drop_packet
  drop_spent_lem c k = ground arith

  weigh_lem :
      (c : Connection f) (k p v : ℕ) (w : f.F32)
      → 0 < p
      → p ≤ 3
      → (weigh f c k (if v == 0 then 0 else p) w).1
        ≡ record c { send_buffer = shut (v == 0) k c.send_buffer }
  unfolding weigh drop_packet
  weigh_lem c k p v w h l = ground (arith, h, l)

  -- the weight behind one entry
  weigh-weights :
      (c : Connection f) (k p v : ℕ) (w : f.F32)
      → 0 < p
      → p ≤ 3
      → (weigh f c k (if v == 0 then 0 else p) w).0 ≡ (if v == 0 then w else heavier (some p) w)
  unfolding weigh heavier
  weigh-weights c k p v w h l = ground (arith, h, l)

  count_high_lem :
      (c : Connection f) (high : Bool)
      → c.high_priority + 1 < u64_mod
      → (n : ℕ) × (n ≤ c.high_priority + 1)
        × (count_high f c high ≡ some (record c { high_priority = n }))
  unfolding count_high
  count_high_lem c true h =
      (c.high_priority + 1, omega arith, rw (add64-some c.high_priority 1 h) refl)
  count_high_lem c false h = (c.high_priority, omega arith, refl)

  same_priority :
      (c : Connection f) (s : SendBuf) (k p : ℕ)
      → priority_calculation f c k ≡ some p
      → priority_calculation f (record c { send_buffer = s }) k ≡ some p
  unfolding priority_calculation
  same_priority c s k p e = e

  -- The priorities do not depend on what an acknowledgement changes.
  pub priorities_stay :
      (c : Connection f) (received mark n : ℕ) (s : SendBuf)
      → priority_calculation f
          (record c { recv_count = received; max_off = mark; send_buffer = s; high_priority = n })
        ≡ priority_calculation f c
  unfolding priority_calculation
  priorities_stay c received mark n s = refl

  reported_priority :
      (v p : ℕ) → (if v == 0 then some 0 else some p) ≡ some (if v == 0 then 0 else p)
  reported_priority v p = ground arith

  ack_entry_lem :
      (c : Connection f) (k v : ℕ) (w : f.F32)
      → k / 1024 < length c.norm2_vec
      → c.high_priority + 1 < u64_mod
      → (w' : f.F32) × (w' ≡ (if v == 0 then w else heavier (priority_calculation f c k) w))
        × (n : ℕ) × (n ≤ c.high_priority + 1)
        × (ack_entry f c k v w
            ≡ some (
              w',
              record c {
                send_buffer = shut (v == 0) k (shut (is_spent c.sent_dic k) k c.send_buffer);
                high_priority = n;
              },
            ))
  unfolding ack_entry
  ack_entry_lem c k v w known room =
      let (p, positive, small, e) = known_priority c k known in
      let s1 : SendBuf = shut (is_spent c.sent_dic k) k c.send_buffer in
      let c1 : Connection f = record c { send_buffer = s1 } in
      let s2 : SendBuf = shut (v == 0) k s1 in
      let c2 : Connection f = record c { send_buffer = s2 } in
      let chosen : ℕ = if v == 0 then 0 else p in
      let (n, most, counted) = count_high_lem c2 (not (chosen == 0) && (p == 3)) room in
      (
        (weigh f c1 k chosen w).0,
        weigh-weights c1 k p v w positive small
            ∙ ap (λ q. if v == 0 then w else heavier q w) (sym e),
        n,
        most,
        rw (
          drop_spent_lem c k,
          same_priority c s1 k p e,
          reported_priority v p,
          weigh_lem c1 k p v w positive small,
          same_priority c s2 k p e,
          counted,
        ),
      )

  -- one round of the loop
  ack_loop_round :
      (rounds : ℕ) (c c' : Connection f) (xs : List ℕ) (w w' : f.F32)
      → 16 ≤ length xs
      → ack_entry f c (from_be_bytes (take 8 xs)) (from_be_bytes (take 8 (drop 8 xs))) w
        ≡ some (w', c')
      → ack_loop f (suc rounds) c xs w ≡ ack_loop f rounds c' (drop 16 xs) w'
  unfolding ack_loop
  ack_loop_round rounds c c' [] w w' h e = absurd (omega (arith, h))
  ack_loop_round rounds c c' (x ∷ rest) w w' h e =
      rw (slice_to-some (x ∷ rest) 8 (omega (arith, h)), slice_8_16 (x ∷ rest) h, e) refl

  ack_loop_end :
      (rounds : ℕ) (c : Connection f) (w : f.F32) → ack_loop f rounds c [] w ≡ some (w, c)
  unfolding ack_loop
  ack_loop_end rounds c w = refl

  pub ack_loop_lem :
      (m : List (ℕ × ℕ)) (rounds : ℕ) (c : Connection f) (w : f.F32)
      → length m ≤ rounds
      → AllPairs m
      → AllKnown c m
      → c.high_priority + length m < u64_mod
      → IsValid c.send_buffer
      → (w' : f.F32) × (w' ≡ weights (priority_calculation f c) m w)
        × (s' : SendBuf) × (n : ℕ) × (ack_loop f rounds c (pair_words m) w
            ≡ some (w', record c { send_buffer = s'; high_priority = n }))
        × Closed (closes c.sent_dic m) c.send_buffer s'
  ack_loop_lem [] rounds c w fuel u known room v = (
    w,
    refl,
    c.send_buffer,
    c.high_priority,
    ack_loop_end rounds c w,
    (v, sym (close_never (window c.send_buffer))),
  )
  ack_loop_lem ((k, r) ∷ m) zero c w fuel u known room v = absurd (omega (arith, fuel))
  ack_loop_lem ((k, r) ∷ m) (suc rounds) c w fuel (uk, ur, u) (known, others) room v =
      let (w1, weighed, n1, most, entry) = ack_entry_lem c k r w known (omega (arith, room)) in
      let spent : Bool = is_spent c.sent_dic k in
      let s1 : SendBuf = shut spent k c.send_buffer in
      let s2 : SendBuf = shut (r == 0) k s1 in
      let first = Closed-if spent c.send_buffer k v in
      let second = Closed-if (r == 0) s1 k first.0 in
      let c1 : Connection f = record c { send_buffer = s2; high_priority = n1 } in
      let (w', total, s', n, run, third) =
        ack_loop_lem m rounds c1 w1 (omega (arith, fuel)) u others (omega (arith, most, room))
          second.0 in
      let round =
        ack_loop_round rounds c c1 (pair_words ((k, r) ∷ m)) w w1 (words_long k r m)
          (first_words (λ i j. ack_entry f c i j w) k r m uk ur ∙ entry) in
      (
        w',
        total
            ∙ ap (weights (priority_calculation f c1) m) weighed
            ∙ ap (λ p. weights p m (if r == 0 then w else heavier (priority_calculation f c k) w))
                (priorities_stay c c.recv_count c.max_off n1 s2),
        s',
        n,
        round ∙ ap (λ xs. ack_loop f rounds c1 xs w1) (drop_pair k r m) ∙ run,
        (
          third.0,
          (Closed-trans _ _ c.send_buffer s2 s' (Closed-trans _ _ c.send_buffer s1 s2 first second)
                third).1
              ∙ close_ext _ _ (window c.send_buffer) (λ x. ground arith),
        ),
      )
