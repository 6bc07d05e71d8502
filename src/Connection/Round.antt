-- ===== src/Connection/Round.antt =====
-- A round of the sender: `send_all` takes what the window has room for, and keeps what the sender
-- relies on.
use dmludp.Prelude.{
  ℕ, ◌+◌, ◌≡◌, refl, ap, sym, ◌∙◌, subst, ltb, Bool, true, false, List, [], ◌∷◌, length, drop_all,
  ◌⊎◌, Option, some, arith, Bool-cases, inl, inr,
}
use mathlib.Core.Option.{some-injective}
use dmludp.Error.{Result, ok}
use dmludp.RangeBuf.{RangeBuf}
use dmludp.Floats.{Floats}
use dmludp.SendBuf.{SendBuf, is_nil}
use dmludp.SendBuf.Window.{window, view}
use dmludp.SendBuf.Write.{Wrote}
use dmludp.Connection.{Connection, set_handshake}
use dmludp.Connection.Fill.{first_piece, write_counted, send_all}
use dmludp.Connection.Sender.{
  IsSender, left, taken, filled, filled-IsSender, Fills, write_counted-Fills,
}
use dmludp.Connection.NextWindow.{HasWindow}

module _ (f : Floats) where
  -- the state in which `send_all` begins
  abbrev pub started : Connection f → ℕ → Connection f
  started c now = record c { stop_flag = false; stop_ack = false; handshake_time = now }

  pub started-IsSender : (c : Connection f) (now : ℕ) → IsSender f c → IsSender f (started c now)
  started-IsSender c now v = record {
    valid = v.valid;
    running = v.running;
    aligned = v.aligned;
    counted = v.counted;
    within = v.within;
    data_u64 = v.data_u64;
    blocks = v.blocks;
  }

  started-HasWindow : (c : Connection f) (now : ℕ) → HasWindow f c → HasWindow f (started c now)
  started-HasWindow c now h = record { increments = h.increments; history = h.history }

  -- A round takes bytes from the state `c`.
  abbrev pub Takes : Connection f → Option (Result Bool × Connection f) → Type 0
  Takes c r =
      (w : ℕ) × (c' : Connection f) × (r ≡ some (ok true, c'))
      × IsSender f c'
      × Wrote c.send_buffer (left f c) w (first_piece f c.total_offset) (taken f c w) c'.send_buffer
      × (c'.written_data ≡ c.written_data + taken f c w)

  Fills-Takes :
      (c : Connection f)
      → IsSender f c
      → (c' : Connection f) × (write_counted f c ≡ some (ok true, c')) × Fills f c c'
      → Takes c (write_counted f c)
  Fills-Takes c v (c', run, w) = (
    w.window_size,
    filled f c w.window_size w.recovery w.buffer,
    run ∙ ap (λ x. some (ok true, x)) w.behind,
    filled-IsSender f c w.window_size w.recovery w.buffer v w.valid w.wrote,
    w.wrote,
    refl,
  )

  nothing_left :
      (c : Connection f) → ltb c.written_data (length c.send_data) ≡ false → left f c ≡ []
  nothing_left c e = drop_all c.written_data c.send_data (ground (arith, e))

  no_window : (s : SendBuf) → is_nil s.chunks ≡ true → window s ≡ []
  no_window s e = empty s.chunks s.offset_recv e
    where
      empty : (bs : List RangeBuf) (m : List (ℕ × Bool)) → is_nil bs ≡ true → view bs m ≡ []
      empty [] m p = refl
      empty (b ∷ bs) m p = cc

  -- A round of the sender never panics. If no bytes are left and none wait in the window, `send_all`
  -- says so and only starts its clock. Otherwise the acknowledged packets leave the window, as many
  -- of the bytes that are left follow as there is room for, cut so that no packet crosses the border
  -- of a block of 1024 bytes, and they count as taken; the sender is ready for the next round.
  -- (Condition: the window and the windows remembered are below 2 ^ 64.)
  pub send_all_lem :
      (c : Connection f) (now : ℕ)
      → IsSender f c
      → HasWindow f c
      → ((send_all f c now ≡ some (ok false, started c now))
          × IsSender f (started c now)
          × (left f c ≡ [])
          × (window c.send_buffer ≡ []))
        ⊎ Takes c (send_all f c now)
  unfolding send_all set_handshake
  send_all_lem c now v h =
      let fills = Fills-Takes (started c now) (started-IsSender c now v) (
        write_counted-Fills f (started c now) (started-IsSender c now v)
          (started-HasWindow c now h)) in
      elim (Bool-cases (ltb c.written_data (length c.send_data))) [
        | inl more ↦ inr (rw more fills)
        | inr taken_all ↦ elim (Bool-cases (is_nil c.send_buffer.chunks)) [
          | inl none_left ↦ inl (
            rw (taken_all, none_left) refl,
            started-IsSender c now v,
            nothing_left c taken_all,
            no_window c.send_buffer none_left,
          )
          | inr some_left ↦ inr (rw (taken_all, some_left) fills)
        ]
      ]

  takes_or_ends :
      (c : Connection f) (now : ℕ)
      → (send_all f c now ≡ some (ok false, started c now))
        ⊎ (send_all f c now ≡ write_counted f (started c now))
  unfolding send_all set_handshake
  takes_or_ends c now = elim (Bool-cases (ltb c.written_data (length c.send_data))) [
    | inl more ↦ inr (rw more refl)
    | inr taken_all ↦ elim (Bool-cases (is_nil c.send_buffer.chunks)) [
      | inl none_left ↦ inl (rw (taken_all, none_left) refl)
      | inr some_left ↦ inr (rw (taken_all, some_left) refl)
    ]
  ]

  -- what a call of `send_all` did that takes bytes
  pub send_all-Fills :
      (c c' : Connection f) (now : ℕ)
      → IsSender f c
      → HasWindow f c
      → send_all f c now ≡ some (ok true, c')
      → Fills f (started c now) c'
  send_all-Fills c c' now v h run =
      let (d, fills, w) =
        write_counted-Fills f (started c now) (started-IsSender c now v)
          (started-HasWindow c now h) in
      elim (takes_or_ends c now) [
        | inl ended ↦ absurd (differ _ _ (sym ended ∙ run))
        | inr takes ↦
            subst (Fills f (started c now))
              (ap (λ q. q.1) (some-injective _ _ (sym fills ∙ sym takes ∙ run))) w
      ]
    where
      differ :
          (x y : Connection f)
          → ◌≡◌ {A = Option (Result Bool × Connection f)} (some (ok false, x)) (some (ok true, y))
          → ⊥
      differ x y e = cc
