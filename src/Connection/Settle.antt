-- ===== src/Connection/Settle.antt =====
-- What `Connection::process_ack` does to the packets that wait in the send buffer.
use dmludp.Prelude.{
  ℕ, zero, suc, ◌≡◌, refl, sym, ap, ◌∙◌, subst, Bool, true, false, ◌==◌, not, ◌&&◌, if◌then◌else◌,
  List, [], ◌∷◌, drop, length, Option, some, none, arith, slice, slice_to, slice_from,
  from_be_bytes, bind-some, Bool-cases, inl, inr, ltb, ◌/◌, ◌*◌,
}
use dmludp.Prelude.Maps.{lookup}
use dmludp.Floats.{Floats}
use dmludp.SendBuf.{SendBuf, ack_and_drop}
use dmludp.SendBuf.Window.{IsValid, Entry, window, ack}
use dmludp.SendBuf.Ack.{ack_and_drop_refines}
use dmludp.Recovery.{update_win}
use dmludp.Connection.{Connection, priority_calculation}
use dmludp.Connection.Receive.{drop_spent, weigh, count_high, ack_entry, ack_loop, process_ack}

-- `es'` has the packets of `es`, in order, of which some may have ceased to wait.
abbrev pub Settled : List Entry → List Entry → Type 0
Settled [] [] = Unit
Settled (e ∷ es) (e' ∷ es') =
    (e'.offset ≡ e.offset)
    × (e'.content ≡ e.content)
    × (e'.pending ≡ true → e.pending ≡ true)
    × Settled es es'
Settled [] (e' ∷ es') = ⊥
Settled (e ∷ es) [] = ⊥

Settled-refl : (es : List Entry) → Settled es es
Settled-refl [] = tt
Settled-refl (e ∷ es) = (refl, refl, λ p. p, Settled-refl es)

Settled-trans : (es fs gs : List Entry) → Settled es fs → Settled fs gs → Settled es gs
Settled-trans [] [] [] s t = tt
Settled-trans (e ∷ es) (f ∷ fs) (g ∷ gs) (o, c, p, s) (o', c', p', t) =
    (o' ∙ o, c' ∙ c, λ h. p (p' h), Settled-trans es fs gs s t)
Settled-trans [] [] (g ∷ gs) s t = t
Settled-trans [] (f ∷ fs) gs s t = absurd s
Settled-trans (e ∷ es) [] gs s t = absurd s
Settled-trans (e ∷ es) (f ∷ fs) [] s t = absurd t

ack-Settled : (offset : ℕ) (es : List Entry) → Settled es (ack offset es)
ack-Settled offset [] = tt
ack-Settled offset (e ∷ es) = elim (Bool-cases (e.offset == offset)) [
  | inl here ↦ rw here (refl, refl, λ p. cc, ack-Settled offset es)
  | inr there ↦ rw there (refl, refl, λ p. p, ack-Settled offset es)
]

-- valid as before, with settled packets
abbrev pub Settles : SendBuf → SendBuf → Type 0
Settles s s' = IsValid s → IsValid s' × Settled (window s) (window s')

pub Settles-refl : (s : SendBuf) → Settles s s
Settles-refl s v = (v, Settled-refl (window s))

Settles-trans : (s t u : SendBuf) → Settles s t → Settles t u → Settles s u
Settles-trans s t u p q v =
    let (v', a) = p v in
    let (v'', b) = q v' in (v'', Settled-trans (window s) (window t) (window u) a b)

ack_and_drop-Settles : (s : SendBuf) (offset : ℕ) → Settles s (ack_and_drop s offset)
ack_and_drop-Settles s offset v =
    let (v', w) = ack_and_drop_refines offset v in
    (v', subst (Settled (window s)) (sym w) (ack-Settled offset (window s)))

module _ (f : Floats) where
  abbrev Does : Connection f → Connection f → Type 0
  Does c c' = Settles c.send_buffer c'.send_buffer

  drop_spent-Does : (c : Connection f) (unack : ℕ) → Does c (drop_spent f c unack)
  unfolding drop_spent
  drop_spent-Does c unack = split (lookup unack c.sent_dic) refl
    where
      split : (m : Option ℕ) → lookup unack c.sent_dic ≡ m → Does c (drop_spent f c unack)
      split none e = rw (drop_spent, e) (Settles-refl c.send_buffer)
      split (some n) e = elim (Bool-cases (n == 0)) [
        | inl spent ↦ rw (drop_spent, e, spent) (ack_and_drop-Settles c.send_buffer unack)
        | inr more ↦ rw (drop_spent, e, more) (Settles-refl c.send_buffer)
      ]

  weigh-Does :
      (c : Connection f) (unack priority : ℕ) (w : f.F32) → Does c (weigh f c unack priority w).1
  unfolding weigh
  weigh-Does c unack priority w = elim (Bool-cases (priority == 1)) [
    | inl a ↦ rw a (Settles-refl c.send_buffer)
    | inr a ↦ elim (Bool-cases (priority == 2)) [
      | inl b ↦ rw (a, b) (Settles-refl c.send_buffer)
      | inr b ↦ elim (Bool-cases (priority == 3)) [
        | inl d ↦ rw (a, b, d) (Settles-refl c.send_buffer)
        | inr d ↦ rw (a, b, d) (ack_and_drop-Settles c.send_buffer unack)
      ]
    ]
  ]

  count_high-same :
      (c c' : Connection f) (high : Bool)
      → count_high f c high ≡ some c'
      → c.send_buffer ≡ c'.send_buffer
  unfolding count_high
  count_high-same c c' high e = ground arith

  ack_entry-Does :
      (c c' : Connection f) (unack reported : ℕ) (w w' : f.F32)
      → ack_entry f c unack reported w ≡ some (w', c')
      → Does c c'
  unfolding ack_entry
  ack_entry-Does c c' unack reported w w' e =
      let c1 : Connection f = drop_spent f c unack in
      let (priority, known, e1) =
        bind-some (if reported == 0 then some 0 else priority_calculation f c1 unack) _ _ e in
      let c2 : Connection f = (weigh f c1 unack priority w).1 in
      let (real, found, e2) = bind-some (priority_calculation f c2 unack) _ _ e1 in
      let (c3, high, e3) =
        bind-some (count_high f c2 (not (priority == 0) && (real == 3))) _ _ e2 in
      let same : c3 ≡ c' = cc in
      Settles-trans c.send_buffer c1.send_buffer c'.send_buffer (drop_spent-Does c unack) (
        subst (Settles c1.send_buffer) (count_high-same c2 c3 _ high ∙ ap (λ x. x.send_buffer) same)
          (weigh-Does c1 unack priority w))

  ack_loop-Does :
      (rounds : ℕ) (c c' : Connection f) (rest : List ℕ) (w w' : f.F32)
      → ack_loop f rounds c rest w ≡ some (w', c')
      → Does c c'
  unfolding ack_loop
  ack_loop-Does rounds c c' [] w w' e = subst (λ x. Does c x) same (Settles-refl c.send_buffer)
    where
      same : c ≡ c'
      same = cc
  ack_loop-Does zero c c' (x ∷ rest) w w' e = cc
  ack_loop-Does (suc rounds) c c' (x ∷ rest) w w' e =
      let (unack, _, e1) = bind-some (slice_to (x ∷ rest) 8) _ _ e in
      let (reported, _, e2) = bind-some (slice (x ∷ rest) 8 16) _ _ e1 in
      let ((w1, c1), entry, e3) =
        bind-some (ack_entry f c (from_be_bytes unack) (from_be_bytes reported) w) _ _ e2 in
      Settles-trans c.send_buffer c1.send_buffer c'.send_buffer
        (ack_entry-Does c c1 (from_be_bytes unack) (from_be_bytes reported) w w1 entry)
        (ack_loop-Does rounds c1 c' (drop 16 (x ∷ rest)) w1 w' e3)

  -- An acknowledgement keeps the send buffer valid, and it neither adds, removes, moves nor changes a
  -- packet of the window, nor makes one wait again: all that it does to the packets is that some
  -- cease to wait. (Condition: the acknowledgement does not make `process_ack` panic.)
  pub process_ack-Settles :
      (c c' : Connection f) (buf : List ℕ)
      → IsValid c.send_buffer
      → process_ack f c buf ≡ some c'
      → IsValid c'.send_buffer × Settled (window c.send_buffer) (window c'.send_buffer)
  unfolding process_ack
  process_ack-Settles c c' buf v e =
      let (unackbuf, _, e1) = bind-some (slice_from buf 26) _ _ e in
      let (mark, _, e2) = bind-some (slice_to unackbuf 8) _ _ e1 in
      let c1 : Connection f =
        if ltb c.max_off (from_be_bytes mark)
        then record c { max_off = from_be_bytes mark }
        else c in
      let ((weights, c2), run, e3) =
        bind-some (ack_loop f (length unackbuf) c1 (drop 8 unackbuf) (f.lit32 0 0)) _ _ e2 in
      let (recovery, updated, e4) =
        bind-some (update_win f c2.recovery weights (f.of_usize (length unackbuf / (8 * 2)))) _ _
          e3 in
      let same : c2.send_buffer ≡ c'.send_buffer = ground arith in
      let start : c.send_buffer ≡ c1.send_buffer =
        marked (ltb c.max_off (from_be_bytes mark)) (from_be_bytes mark) in
      subst (Settles c.send_buffer) same
        (subst (λ s. Settles s c2.send_buffer) (sym start)
          (ack_loop-Does (length unackbuf) c1 c2 (drop 8 unackbuf) (f.lit32 0 0) weights run))
        v
    where
      marked :
          (b : Bool) (n : ℕ)
          → c.send_buffer ≡ (if b then record c { max_off = n } else c).send_buffer
      marked true n = refl
      marked false n = refl
