-- ===== src/Connection/Reliable.antt =====
-- From the data packets that a receiver of src/lib.rs was given to the packets that the sender gives up.
use dmludp.Prelude.{
  ℕ, ◌+◌, ◌*◌, ◌≤◌, ◌<◌, ◌≡◌, refl, sym, ap, ◌∙◌, subst, Bool, true, ◌==◌, ◌&&◌, ◌||◌, List, [],
  ◌∷◌, length, take, some, arith, u64_mod, ◌⊎◌, inl, inr, Bool-cases, bind-some,
}
use mathlib.Core.Option.{some-injective}
use dmludp.Prelude.Maps.{contains_key}
use dmludp.Error.{Result, ok, err}
use dmludp.Floats.{Floats}
use dmludp.Octets.{Octets, OctetsLaws}
use dmludp.SendBuf.Window.{IsValid, Entry, window}
use dmludp.Recovery.{update_win}
use dmludp.Connection.{Connection}
use dmludp.Connection.Answer.{member}
use dmludp.Connection.Send.{send_data}
use dmludp.Connection.Receive.{recv_slice}
use dmludp.Connection.Closing.{close, closes, is_spent}
use dmludp.Connection.Verdicts.{AllKnown}
use dmludp.Connection.Acknowledge.{Owes, paced}
use dmludp.Connection.Feedback.{acknowledgement_is_processed}
use dmludp.Connection.Noted.{IsTrue}
use dmludp.Connection.Honest.{Receives, Receives-IsHonest}

-- A data packet named the offset, or what is there may not be sent again.
abbrev pub IsAccounted : List ℕ → List (ℕ × ℕ) → ℕ → Type 0
IsAccounted offsets sent_dic k = (member k offsets ≡ true) ⊎ (is_spent sent_dic k ≡ true)

-- The packets `es'` are those of `es`, of which each that has ceased to wait is accounted for.
abbrev pub Accounted : List ℕ → List (ℕ × ℕ) → List Entry → List Entry → Type 0
Accounted offsets sent_dic [] [] = Unit
Accounted offsets sent_dic (e ∷ es) (e' ∷ es') =
    (e'.offset ≡ e.offset)
    × (e'.content ≡ e.content)
    × ((e'.pending ≡ e.pending) ⊎ IsAccounted offsets sent_dic e.offset)
    × Accounted offsets sent_dic es es'
Accounted offsets sent_dic (e ∷ es) [] = ⊥
Accounted offsets sent_dic [] (e' ∷ es') = ⊥

closes-IsAccounted :
    (offsets : List ℕ) (dic sent_dic m : List (ℕ × ℕ)) (k : ℕ)
    → IsTrue dic m
    → ((j : ℕ) → contains_key j dic ≡ true → member j offsets ≡ true)
    → closes sent_dic m k ≡ true
    → IsAccounted offsets sent_dic k
closes-IsAccounted offsets dic sent_dic [] k t a e = cc
closes-IsAccounted offsets dic sent_dic ((j, v) ∷ m) k (h, t) a e =
    elim (Bool-cases (k == j && (is_spent sent_dic j || v == 0))) [
      | inr other ↦
          closes-IsAccounted offsets dic sent_dic m k t a
            (sym (ap (λ b. b || closes sent_dic m k) other) ∙ e)
      | inl named ↦
          let same : j ≡ k = ground (arith, named) in
          elim (Bool-cases (is_spent sent_dic j)) [
            | inl spent ↦ inr (subst (λ i. is_spent sent_dic i ≡ true) same spent)
            | inr left ↦
                inl (
                  subst (λ i. member i offsets ≡ true) same (a j (h (ground (arith, named, left)))))
          ]
    ]

close-Accounted :
    (offsets : List ℕ) (sent_dic : List (ℕ × ℕ)) (p : ℕ → Bool) (es : List Entry)
    → ((k : ℕ) → p k ≡ true → IsAccounted offsets sent_dic k)
    → Accounted offsets sent_dic es (close p es)
close-Accounted offsets sent_dic p [] h = tt
close-Accounted offsets sent_dic p (e ∷ es) h = elim (Bool-cases (p e.offset)) [
  | inl closed ↦
      rw closed (refl, refl, inr (h e.offset closed), close-Accounted offsets sent_dic p es h)
  | inr open_still ↦ rw open_still (refl, refl, inl refl, close-Accounted offsets sent_dic p es h)
]

module _ (f : Floats) (o : Octets) (laws : OctetsLaws o) where
  -- The sender gives up no packet that was not named. Whatever a receiver has been through, if the
  -- sender is given the acknowledgement that the receiver makes, the packets in its window stay, and
  -- for each that ceases to wait the receiver was given a data packet whose header names its offset,
  -- or it may not be sent again. Nothing is said of the bytes behind that header. (Conditions: the
  -- receiver owes an acknowledgement and has room for it, the sender is a server with a valid buffer
  -- and has norms for the offsets that are named, and counters stay below 2 ^ 64.)
  pub acknowledged_was_named :
      (offsets : List ℕ) (r c r' c' : Connection f) (out out' : List ℕ) (now later n : ℕ)
      (res : Result ℕ)
      → Receives f o offsets r
      → Owes f o laws r
      → AllKnown f c r.recv_hashmap
      → IsValid c.send_buffer
      → c.is_server ≡ true
      → c.recv_count + 1 < u64_mod
      → c.high_priority + length r.recv_hashmap < u64_mod
      → 34 + 16 * length r.recv_hashmap ≤ length out
      → send_data f o r out now ≡ some (ok n, r', out')
      → recv_slice f o c (take n out') later ≡ some (res, c')
      → Accounted offsets c.sent_dic (window c.send_buffer) (window c'.send_buffer)
  acknowledged_was_named offsets r c r' c' out out' now later n res receives owes known v server
        counted room fits made heard =
      let (r1, c1, out1, w, made1, _, _, heard1, _, _, closed) =
        acknowledgement_is_processed f o laws r c out now later owes known v server counted room
          fits in
      let (t, a) = Receives-IsHonest f o offsets r receives in
      let packet : take n out' ≡ take (34 + 16 * length r.recv_hashmap) out1 =
        ap (λ q. take (size q.0) q.2) (some-injective _ _ (sym made ∙ made1)) in
      let heard' = sym heard1 ∙ ap (λ xs. recv_slice f o c xs later) (sym packet) ∙ heard in
      let (c2, ran, e2) = bind-some (paced f o laws c1 w (length r.recv_hashmap)) _ _ heard' in
      let (recovery, _, e3) =
        bind-some (update_win f c1.recovery w (f.of_usize (length r.recv_hashmap))) _ _ ran in
      let same : window c1.send_buffer ≡ window c'.send_buffer =
        ap (λ x. window x.send_buffer) (some-injective _ _ e3)
        ∙ ap (λ q. window q.1.send_buffer) (some-injective _ _ e2) in
      subst (Accounted offsets c.sent_dic (window c.send_buffer)) (sym closed ∙ same) (
        close-Accounted offsets c.sent_dic (closes c.sent_dic r.recv_hashmap) (window c.send_buffer)
          (λ k. closes-IsAccounted offsets r.recv_dic c.sent_dic r.recv_hashmap k t a))
    where
      size : Result ℕ → ℕ
      size (ok k) = k
      size (err e) = 0
