-- ===== src/Recovery/Cwnd.antt =====
-- `Recovery::cwnd` and `Recovery::update_win`.
use dmludp.Prelude.{
  ◌-◌, ◌*◌, ◌<◌, ◌≡◌, ap, max, if◌then◌else◌, leb, some, arith, u64_mod, Bool-cases, inl, inr,
}
use dmludp.Floats.{Floats}
use dmludp.Recovery.{Recovery, tmp_win, open_window, cwnd, set_insert}

module _ (f : Floats) where
  tmp_win_lem :
      (r : Recovery f)
      → 2 * r.incre_win < u64_mod
      → tmp_win f r ≡ some (2 * r.incre_win - r.decre_win)
  unfolding tmp_win
  tmp_win_lem r h = ground arith

  -- the state that `cwnd` leaves
  abbrev pub opened : Recovery f → Recovery f
  opened r = record r {
    former_win_vecter =
        if r.roll_back_flag
        then r.former_win_vecter
        else set_insert (2 * r.incre_win - r.decre_win) r.former_win_vecter;
    congestion_window = max 9600 (2 * r.incre_win - r.decre_win);
    incre_win = 0;
    decre_win = 0;
  }

  open_window_lem :
      (r : Recovery f)
      → open_window f r (2 * r.incre_win - r.decre_win)
        ≡ (max 9600 (2 * r.incre_win - r.decre_win), opened r)
  unfolding open_window
  open_window_lem r = elim (Bool-cases (leb 9600 (2 * r.incre_win - r.decre_win))) [
    | inl large ↦
        let e : max 9600 (2 * r.incre_win - r.decre_win) ≡ 2 * r.incre_win - r.decre_win =
          ground arith in
        rw (large, e)
    | inr small ↦
        let e : max 9600 (2 * r.incre_win - r.decre_win) ≡ 9600 = ground arith in rw (small, e)
  ]

  -- `cwnd` is twice the increments less the decrements since the last call, but at least eight
  -- packets of 1200 bytes. It starts both sums again, and remembers the window before the lower
  -- bound is applied, unless the rollback flag is set. (Condition: twice the increments are a u64;
  -- beyond that it panics.)
  pub cwnd_lem :
      (r : Recovery f)
      → 2 * r.incre_win < u64_mod
      → cwnd f r ≡ some (max 9600 (2 * r.incre_win - r.decre_win), opened r)
  unfolding cwnd
  cwnd_lem r h = rw (tmp_win_lem r h) (ap some (open_window_lem r))
