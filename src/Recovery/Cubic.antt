-- ===== src/Recovery/Cubic.antt =====
-- src/recovery/NewCubic.rs: the congestion control operations that `Recovery` calls through its
-- table. (`on_init` does nothing, and `has_custom_pacing` is false.)
use dmludp.Prelude.{◌≡◌, Bool, true, false, Option, some, [], ◌∷◌, mul64, ◌>>=◌, arith}
use dmludp.Floats.{Floats}
use dmludp.Recovery.{Recovery, default_state, minimum_window_packets, initial_window_packets}

module _ (f : Floats) where
  unfoldable pub on_init : Recovery f → Recovery f
  on_init r = r

  -- `NewCubic::reset`
  unfoldable pub cubic_reset : Recovery f → Recovery f
  cubic_reset r = record r { cubic_state = default_state f }

  -- `Recovery::reset`
  unfoldable pub reset : Recovery f → Option (Recovery f)
  unfolding cubic_reset
  reset r = do
    win ← mul64 r.max_datagram_size initial_window_packets
    some (cubic_reset (record r { congestion_window = win; in_flight_count = 0 ∷ 0 ∷ 0 ∷ [] }))

  unfoldable pub collapse_cwnd : Recovery f → Option (Recovery f)
  collapse_cwnd r = do
    let s = r.cubic_state
    win ← mul64 r.max_datagram_size minimum_window_packets
    some (record r {
      cubic_state = record s { w_max = f.of_usize r.congestion_window };
      congestion_window = win;
    })

  unfoldable pub checkpoint : Recovery f → Recovery f
  checkpoint r =
      let s = r.cubic_state in
      record r {
        cubic_state = record s {
          prior = record {
            congestion_window = r.congestion_window;
            w_max = s.w_max;
            k = s.k;
            lost_count = r.lost_count;
          };
        };
      }

  -- `NewCubic::rollback`
  unfoldable pub cubic_rollback : Recovery f → Bool × Recovery f
  cubic_rollback r =
      let s = r.cubic_state in
      (
        true,
        record r {
          congestion_window = s.prior.congestion_window;
          cubic_state = record s { w_max = s.prior.w_max; k = s.prior.k };
        },
      )

  unfoldable pub has_custom_pacing : Bool
  has_custom_pacing = false

  -- A collapse behind a checkpoint is undone by a rollback: it brings back the window and both
  -- parameters of the curve; the checkpoint itself stays.
  pub rollback_undoes_collapse :
      (r r' : Recovery f)
      → collapse_cwnd (checkpoint r) ≡ some r'
      → (cubic_rollback r').1 ≡ checkpoint r
  unfolding collapse_cwnd checkpoint cubic_rollback
  rollback_undoes_collapse r r' e = ground arith
