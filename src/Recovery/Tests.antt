-- ===== src/Recovery/Tests.antt =====
-- The theorems on `Recovery` at concrete states, with natural numbers for the two float types.
use dmludp.Prelude.{◌≡◌, ◌⊎◌, refl, [], ◌∷◌, true, false, some, arith}
use dmludp.Floats.Example.{hundredths}
use dmludp.Config.{Config, newcubic}
use dmludp.Recovery.{Recovery, default_state, ini_win, new, cwnd, rollback, update_app_limited}
use dmludp.Recovery.Cubic.{collapse_cwnd, checkpoint, cubic_rollback, rollback_undoes_collapse}
use dmludp.Recovery.Cwnd.{opened, cwnd_lem}
use dmludp.Recovery.Rollback.{here, next, rolled_back, limited, rollback_is_stale}

abbrev config : Config
config = record {
  cc_algorithm = newcubic;
  max_send_udp_payload_size = 1200;
  max_idle_timeout = 5000;
}

-- the state that `new` makes of this configuration
abbrev fresh_state : Recovery hundredths
fresh_state = record {
  cubic_state = default_state hundredths;
  lost_count = 0;
  in_flight_count = 0 ∷ 0 ∷ 0 ∷ [];
  app_limited = false;
  congestion_window = 9600;
  bytes_in_flight = 0;
  max_datagram_size = 1200;
  k = 100;
  incre_win = 0;
  decre_win = 0;
  former_win_vecter = [];
  roll_back_flag = false;
}

-- 6000 bytes up and 1500 down since the last call
abbrev moved : Recovery hundredths
moved = record fresh_state { incre_win = 6000; decre_win = 1500 }

cwnd_lem_example : cwnd hundredths moved ≡ some (10500, opened hundredths moved)
cwnd_lem_example = cwnd_lem hundredths moved (omega arith)

rollback_is_stale_example :
    ((rollback hundredths
        (rollback hundredths (update_app_limited hundredths fresh_state true)).1).0
      ≡ 0)
    ⊎ ((rollback hundredths
          (rollback hundredths (update_app_limited hundredths fresh_state true)).1).0
        ≡ ini_win)
unfolding new
rollback_is_stale_example =
    rollback_is_stale hundredths config fresh_state
      ((rollback hundredths (update_app_limited hundredths fresh_state true)).1) refl
      (next (next here (limited true)) rolled_back)

abbrev collapsed_state : Recovery hundredths
collapsed_state = record fresh_state {
  congestion_window = 2400;
  cubic_state = record {
    k = 0;
    w_max = 960000;
    prior = record { congestion_window = 9600; w_max = 0; k = 0; lost_count = 0 };
  };
}

rollback_undoes_collapse_example :
    (cubic_rollback hundredths collapsed_state).1 ≡ checkpoint hundredths fresh_state
unfolding collapse_cwnd checkpoint
rollback_undoes_collapse_example =
    rollback_undoes_collapse hundredths fresh_state collapsed_state refl
