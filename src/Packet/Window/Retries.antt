-- ===== src/Packet/Window/Retries.antt =====
-- How often `check_received` asks for an offset before it gives up on it.
use dmludp.Prelude.{
  ℕ, zero, suc, ◌+◌, ◌-◌, ◌%◌, ◌≤◌, ◌<◌, ◌≡◌, refl, ◌==◌, Bool, true, false, some, none, arith,
  if◌then◌else◌, Bool-cases, inl, inr, ap, sym, ◌∙◌, subst,
}
use native.Mathlib.Numerals.{add-one}
use dmludp.Prelude.Maps.{lookup, lookup-hash_insert}
use dmludp.Packet.Window.{PktNumWindow, update_retrans, additem, get_priority, check_received}

-- The window after `k` calls of `check_received` for an offset that was not sent.
unfoldable pub asked : ℕ → PktNumWindow → ℕ → PktNumWindow
asked zero w offset = w
asked (suc k) w offset = asked k (check_received w offset false).1 offset

-- the answer of the next call
unfoldable pub answer : ℕ → PktNumWindow → ℕ → Bool
answer k w offset = (check_received (asked k w offset) offset false).0

lookup-update_retrans :
    (w : PktNumWindow) (offset r c : ℕ)
    → lookup offset (update_retrans w offset r c).records ≡ some (r, c)
unfolding update_retrans
lookup-update_retrans w offset r c =
    ground (arith, lookup-hash_insert offset offset (r, c) w.records)

-- One call on an offset with `r + 1` retransmissions left.
ask_left :
    (w : PktNumWindow) (offset r : ℕ)
    → lookup offset w.records ≡ some (suc r, 0)
    → ((check_received w offset false).0 ≡ false)
      × (lookup offset (check_received w offset false).1.records ≡ some (r, 0))
unfolding check_received
ask_left w offset r e = rw e (ground (arith, lookup-hash_insert offset offset (r, 0) w.records))

ask_last :
    (w : PktNumWindow) (offset : ℕ)
    → lookup offset w.records ≡ some (0, 0)
    → ((check_received w offset false).0 ≡ false)
      × (lookup offset (check_received w offset false).1.records ≡ some (0, 1))
unfolding check_received
ask_last w offset e = rw e (ground (arith, lookup-hash_insert offset offset (0, 1) w.records))

-- The first call on an offset that the window does not know.
ask_first :
    (w : PktNumWindow) (offset p : ℕ)
    → lookup offset w.records ≡ none
    → get_priority w (offset - offset % 1024) ≡ p
    → ((check_received w offset false).0 ≡ false)
      × (lookup offset (check_received w offset false).1.records
          ≡ some ((if p == 0 then 2 else p - 1), 0))
unfolding check_received
ask_first w offset p e ep =
    rw (e, ep)
      (elim (Bool-cases (p == 0)) [
        | inl z ↦
            rw z (refl, lookup-update_retrans (additem w (offset - offset % 1024) 3) offset 2 0)
        | inr z ↦ rw z (refl, lookup-update_retrans w offset (p - 1) 0)
      ])

-- The answer to an offset that counts as received changes nothing.
ask_received :
    (w : PktNumWindow) (offset r : ℕ)
    → lookup offset w.records ≡ some (r, 1)
    → check_received w offset false ≡ (true, w)
unfolding check_received
ask_received w offset r e = rw e

asks_left :
    (r : ℕ) (w : PktNumWindow) (offset : ℕ)
    → lookup offset w.records ≡ some (r, 0)
    → ((k : ℕ) → k ≤ r → answer k w offset ≡ false) × (answer (suc r) w offset ≡ true)
unfolding answer asked
asks_left zero w offset e =
    let (now, after) = ask_last w offset e in
    (
      elim [ zero ↦ λ h. now | suc k ↦ λ h. absurd (omega arith) ],
      ap (λ (x : Bool × PktNumWindow). x.0) (ask_received _ offset 0 after),
    )
asks_left (suc r) w offset e =
    let (now, after) = ask_left w offset r e in
    let (before, last) = asks_left r (check_received w offset false).1 offset after in
    (elim [ zero ↦ λ h. now | suc k ↦ λ h. before k (omega arith) ], last)

-- how often the source asks for an offset of priority `p`, the first time aside; an unknown
-- priority counts as 3
abbrev pub budget : ℕ → ℕ
budget p = if p == 0 then 3 else p

budget_split : (p : ℕ) → suc (if p == 0 then 2 else p - 1) ≡ budget p
budget_split p = ground arith

-- `check_received` asks for an unknown offset a bounded number of times: `budget p + 1` calls in a
-- row answer false, where `p` is the priority recorded for the 1024-byte block, and then the
-- offset counts as received, although it never arrived.
pub check_received_gives_up :
    (w : PktNumWindow) (offset p : ℕ)
    → lookup offset w.records ≡ none
    → get_priority w (offset - offset % 1024) ≡ p
    → ((k : ℕ) → k ≤ budget p → answer k w offset ≡ false) × (answer (budget p + 1) w offset ≡ true)
unfolding answer asked
check_received_gives_up w offset p e ep =
    let (now, after) = ask_first w offset p e ep in
    let (before, last) = asks_left _ (check_received w offset false).1 offset after in
    (
      elim [ zero ↦ λ h. now | suc k ↦ λ h. before k (omega (arith, budget_split p)) ],
      subst (λ n. answer n w offset ≡ true) (ap suc (budget_split p) ∙ sym (add-one (budget p)))
          last,
    )

-- exactly `n` calls in a row answer false
abbrev pub Asks : PktNumWindow → ℕ → ℕ → Type 0
Asks w offset n = ((k : ℕ) → k < n → answer k w offset ≡ false) × (answer n w offset ≡ true)
