-- ===== src/Connection/NextWindow.antt =====
-- The window that `write` asks `Recovery` for.
use dmludp.Prelude.{
  ℕ, ◌+◌, ◌-◌, ◌*◌, ◌%◌, ◌<◌, ◌≡◌, refl, ap, subst, List, [], ◌∷◌, max, Option, some, none, arith,
  u64_mod, Bool-cases, inl, inr, bind-some,
}
use mathlib.Core.Option.{some-injective}
use dmludp.Floats.{Floats}
use dmludp.Recovery.{Recovery, rollback, pop_last}
use dmludp.Recovery.Cwnd.{cwnd_lem, opened}
use dmludp.Connection.{Connection}
use dmludp.Connection.Fill.{next_window, first_piece}
use dmludp.Connection.Request.{AllU64}

pop_last-bounded :
    (xs : List ℕ) (m : ℕ) (rest : List ℕ) → AllU64 xs → pop_last xs ≡ some (m, rest) → m < u64_mod
unfolding pop_last
pop_last-bounded [] m rest u e = cc
pop_last-bounded (x ∷ []) m rest (h, u) e =
    subst (λ n. n < u64_mod) (ap (λ p. p.0) (some-injective _ _ e)) h
pop_last-bounded (x ∷ y ∷ xs) m rest (h, u) e =
    let ((n, less), popped, e1) = bind-some (pop_last (y ∷ xs)) _ _ e in
    subst (λ k. k < u64_mod) (ap (λ p. p.0) (some-injective _ _ e1))
      (pop_last-bounded (y ∷ xs) n less u popped)

module _ (f : Floats) where
  -- The next window can be computed.
  pub record HasWindow (c : Connection f) : Type 0 where
    pub increments : 2 * c.recovery.incre_win < u64_mod
    pub history : AllU64 c.recovery.former_win_vecter

  rollback-u64 : (r : Recovery f) → AllU64 r.former_win_vecter → (rollback f r).0 < u64_mod
  unfolding rollback
  rollback-u64 r u = split (pop_last r.former_win_vecter) refl
    where
      split :
          (q : Option (ℕ × List ℕ)) → pop_last r.former_win_vecter ≡ q → (rollback f r).0 < u64_mod
      split none e = rw (rollback, e) (omega arith)
      split (some (m, rest)) e = rw (rollback, e) (pop_last-bounded r.former_win_vecter m rest u e)

  pub next_window_lem :
      (c : Connection f)
      → HasWindow c
      → (w : ℕ) × (r : Recovery f) × (w < u64_mod)
        × (next_window f c
            ≡ some (w, record c { high_priority = 0; sent_number = 0; recovery = r }))
  unfolding next_window
  next_window_lem c h =
      elim (Bool-cases
        (f.lt (f.lit 1 2) (f.div (f.of_usize c.high_priority) (f.of_usize c.sent_number)))) [
          | inl high ↦ (
            (rollback f c.recovery).0,
            (rollback f c.recovery).1,
            rollback-u64 c.recovery h.history,
            rw high refl,
          )
          | inr low ↦ (
            max 9600 (2 * c.recovery.incre_win - c.recovery.decre_win),
            opened f c.recovery,
            omega (arith, h.increments),
            rw (low, cwnd_lem f c.recovery h.increments) refl,
          )
        ]

  pub first_piece_lem :
      (off : ℕ) → (first_piece f off < 1024) × ((off + first_piece f off) % 1024 ≡ 0)
  unfolding first_piece
  first_piece_lem off = (ground arith, ground arith)
