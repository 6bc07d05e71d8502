-- ===== src/Connection/Stream/Round.antt =====
-- `Connection::send_all` of src/lib.rs on a sender of a stream.
use dmludp.Prelude.{
  ℕ, ◌≡◌, sym, ap, ap₂, ◌∙◌, subst, Bool, true, ltb, List, ◌++◌, length, take, drop, some, none,
  Option, arith, inl, inr, bind-some, add64, slice_from, ◌>>=◌, take-append-drop, concat,
  Bool-cases, if-false, if-true,
}
use mathlib.Core.Option.{some-injective}
use dmludp.Error.{Result, ok, err}
use dmludp.Floats.{Floats}
use dmludp.Octets.{Octets}
use dmludp.SendBuf.{is_nil, write as buffer_write}
use dmludp.SendBuf.Window.{window, drop_acked}
use dmludp.SendBuf.Pieces.{pieces}
use dmludp.SendBuf.Write.{Wrote}
use dmludp.Connection.{Connection}
use dmludp.Connection.Fill.{next_window, first_piece, write, write_counted, send_all}
use dmludp.Connection.NextWindow.{HasWindow}
use dmludp.Connection.Round.{started, send_all_lem}
use dmludp.Connection.Sender.{IsSender, left, taken}
use dmludp.Connection.Request.{AllU64}
use dmludp.Connection.Paced.{IsPaced, Same-IsPaced}
use dmludp.Connection.Slices.{AllSlices, AllSlices-append, AllSlices-drop_acked, fresh-AllSlices}
use dmludp.Connection.Stream.{IsStream}

module _ (f : Floats) where
  -- what a round does not touch
  abbrev Rests : Connection f → Connection f → Type 0
  Rests c c' =
      (c'.send_data ≡ c.send_data)
      × (c'.recv_flag ≡ c.recv_flag)
      × (c'.sent_pkt ≡ c.sent_pkt)
      × (c'.ack_point ≡ c.ack_point)
      × (c'.sent_count ≡ c.sent_count)

  next_window-Rests : (c c' : Connection f) (w : ℕ) → next_window f c ≡ some (w, c') → Rests c c'
  unfolding next_window
  next_window-Rests c c' w e = ground arith

  write-Rests : (c c' : Connection f) (r : Result ℕ) → write f c ≡ some (r, c') → Rests c c'
  unfolding write
  write-Rests c c' r e =
      let ((w, c1), opened, e1) = bind-some (next_window f c) _ _ e in
      let (rest, _, e2) = bind-some (slice_from c1.send_data c1.written_data) _ _ e1 in
      let ((n, buffer), _, e3) =
        bind-some (buffer_write c1.send_buffer rest w (first_piece f c.total_offset) c1.max_off) _ _
          e2 in
      let state : record c1 { send_buffer = buffer } ≡ c' =
        ap (λ q. q.1) (some-injective (n, record c1 { send_buffer = buffer }) (r, c') e3) in
      subst (Rests c) state (next_window-Rests c c1 w opened)

  write_counted-Rests :
      (c c' : Connection f) (r : Result Bool) → write_counted f c ≡ some (r, c') → Rests c c'
  unfolding write_counted
  write_counted-Rests c c' r e =
      let ((n, c1), wrote, e1) = bind-some (write f c) _ _ e in
      let same = write-Rests c c1 n wrote in counted n c1 same e1
    where
      counted :
          (n : Result ℕ) (c1 : Connection f)
          → Rests c c1
          → ◌≡◌ {A = Option (Result Bool × Connection f)}
              (elim n [
                | err e ↦ none
                | ok k ↦ do
                  written_data ← add64 c1.written_data k
                  total_offset ← add64 c1.total_offset k
                  some (
                    ok true,
                    record c1 { written_data = written_data; total_offset = total_offset },
                  )
              ])
              (some (r, c'))
          → Rests c c'
      counted (err x) c1 same e = cc
      counted (ok k) c1 same e = ground (arith, same, e)

  send_all-Rests :
      (c c' : Connection f) (r : Result Bool) (now : ℕ)
      → send_all f c now ≡ some (r, c')
      → Rests c c'
  unfolding send_all
  send_all-Rests c c' r now e = elim (Bool-cases (ltb c.written_data (length c.send_data))) [
    | inl more ↦ write_counted-Rests (started f c now) c' r (sym (if-true _ _ _ more) ∙ e)
    | inr taken_all ↦ elim (Bool-cases (is_nil c.send_buffer.chunks)) [
      | inl none_left ↦ ground (arith, taken_all, none_left, e)
      | inr some_left ↦
          write_counted-Rests (started f c now) c' r
            (sym (if-false _ _ _ some_left) ∙ sym (if-false _ _ _ taken_all) ∙ e)
    ]
  ]

  -- the packets behind a round
  Wrote-AllSlices :
      (d : List ℕ) (c c' : Connection f) (w : ℕ)
      → IsStream f d c
      → Wrote c.send_buffer (left f c) w (first_piece f c.total_offset) (taken f c w) c'.send_buffer
      → AllSlices d (window c'.send_buffer)
  Wrote-AllSlices d c c' w v wrote = subst (AllSlices d) (sym wrote.seen) (
      AllSlices-append d (drop_acked (window c.send_buffer)) _
        (AllSlices-drop_acked d (window c.send_buffer) v.slices)
        (fresh-AllSlices d c.send_buffer.off _ (drop (taken f c w) (left f c)) cut
          (omega (arith, v.sender.aligned, v.sender.counted, v.sender.within, ap length v.whole))))
    where
      cut :
          drop c.send_buffer.off d
          ≡ concat (pieces (take (taken f c w) (left f c)) (first_piece f c.total_offset))
            ++ drop (taken f c w) (left f c)
      cut =
          ap₂ drop (v.sender.aligned ∙ v.sender.counted) (sym v.whole)
          ∙ sym (take-append-drop (taken f c w) (left f c))
          ∙ ap (λ xs. xs ++ drop (taken f c w) (left f c)) (sym wrote.complete)

  -- A round of a sender of a stream leaves a sender of that stream. (Condition: the window and those
  -- remembered are below 2 ^ 64.)
  pub send_all-IsStream :
      (d : List ℕ) (o : Octets) (c c' : Connection f) (r : Result Bool) (now : ℕ)
      → HasWindow f c
      → IsStream f d c
      → IsPaced f o c
      → send_all f c now ≡ some (r, c')
      → IsStream f d c' × IsPaced f o c'
  send_all-IsStream d o c c' r now h v p e =
      let (sd, rf, sp, ap', sc) = send_all-Rests c c' r now e in
      (
        elim (send_all_lem f c now v.sender h) [
          | inl (idle, sender, _, _) ↦
              let state : started f c now ≡ c' =
                ap (λ q. q.1) (some-injective _ _ (sym idle ∙ e)) in
              subst (IsStream f d) state (record {
                sender = sender;
                whole = v.whole;
                slices = v.slices;
                offsets = v.offsets;
                silent = v.silent;
              })
          | inr (w, c2, run, sender, wrote, _) ↦
              let state : c2 ≡ c' = ap (λ q. q.1) (some-injective _ _ (sym run ∙ e)) in
              record {
                sender = subst (IsSender f) state sender;
                whole = sd ∙ v.whole;
                slices = Wrote-AllSlices d c c' w v (
                    subst
                      (λ x.
                        Wrote c.send_buffer (left f c) w (first_piece f c.total_offset)
                          (taken f c w) x.send_buffer)
                      state wrote);
                offsets = subst AllU64 (sym sp) v.offsets;
                silent = rf ∙ v.silent;
              }
        ],
        Same-IsPaced f o c c' (sp, ap', sc) p,
      )
