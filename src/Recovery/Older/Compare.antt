-- ===== src/Recovery/Older/Compare.antt =====
-- The windows of src/recovery/modv1.rs beside those of src/recovery/mod.rs.
use dmludp.Prelude.{ℕ, ◌≡◌, some, arith, ◌>>=◌}
use dmludp.Floats.{Floats}
use dmludp.Recovery
use dmludp.Recovery.Older

module _ (f : Floats) where
  -- The two versions of `cwnd` give the same window for the same sums, and panic alike: they differ
  -- only in what they remember for a rollback.
  pub cwnd_agrees :
      (r : Older.Recovery f) (s : Recovery.Recovery f)
      → r.incre_win ≡ s.incre_win
      → r.decre_win ≡ s.decre_win
      → (do (w, r') ← Older.cwnd f r; some w) ≡ (do (w, s') ← Recovery.cwnd f s; some w)
  unfolding Older.cwnd Recovery.cwnd Older.open_window Recovery.open_window Older.tmp_win
      Recovery.tmp_win
  cwnd_agrees r s e e' = ground arith

  -- A second call of `cwnd` with no `update_win` since the first opens the smallest window, but what
  -- it remembers is 0: `rollback` then gives a window of 0 bytes.
  pub rollback-cwnd :
      (r s t : Older.Recovery f) (v w : ℕ)
      → Older.cwnd f r ≡ some (v, s)
      → Older.cwnd f s ≡ some (w, t)
      → (w ≡ 9600) × (Older.rollback f t ≡ (0, record t { congestion_window = 0 }))
  unfolding Older.cwnd Older.open_window Older.tmp_win Older.rollback
  rollback-cwnd r s t v w e e' = ground arith
