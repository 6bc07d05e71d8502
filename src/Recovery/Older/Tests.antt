-- ===== src/Recovery/Older/Tests.antt =====
-- The theorems on src/recovery/modv1.rs at concrete states, with natural numbers for the two float
-- types.
use dmludp.Prelude.{ℕ, ◌≡◌, refl, [], ◌∷◌, false, some, ◌>>=◌}
use dmludp.Floats.Example.{hundredths}
use dmludp.Recovery
use dmludp.Recovery.Older
use dmludp.Recovery.Older.Compare.{cwnd_agrees, rollback-cwnd}

-- 6000 bytes up and 1500 down since the last call
abbrev older_moved : Older.Recovery hundredths
older_moved = record {
  cubic_state = Recovery.default_state hundredths;
  lost_count = 0;
  in_flight_count = 0 ∷ 0 ∷ 0 ∷ [];
  app_limited = false;
  congestion_window = 9600;
  bytes_in_flight = 0;
  max_datagram_size = 1200;
  k = 120;
  incre_win = 6000;
  decre_win = 1500;
  former_win = 9600;
}

abbrev current_moved : Recovery.Recovery hundredths
current_moved = record {
  cubic_state = Recovery.default_state hundredths;
  lost_count = 0;
  in_flight_count = 0 ∷ 0 ∷ 0 ∷ [];
  app_limited = false;
  congestion_window = 9600;
  bytes_in_flight = 0;
  max_datagram_size = 1200;
  k = 100;
  incre_win = 6000;
  decre_win = 1500;
  former_win_vecter = [];
  roll_back_flag = false;
}

cwnd_agrees_example :
    (do (w, r') ← Older.cwnd hundredths older_moved; some w)
    ≡ (do (w, s') ← Recovery.cwnd hundredths current_moved; some w)
cwnd_agrees_example = cwnd_agrees hundredths older_moved current_moved refl refl

-- behind a first call, and behind a second
abbrev opened_once : Older.Recovery hundredths
opened_once = record older_moved { congestion_window = 10500; incre_win = 0; decre_win = 0 }

abbrev opened_twice : Older.Recovery hundredths
opened_twice = record opened_once { congestion_window = 9600; former_win = 0 }

rollback-cwnd_example :
    (◌≡◌ {A = ℕ} 9600 9600)
    × (Older.rollback hundredths opened_twice ≡ (0, record opened_twice { congestion_window = 0 }))
unfolding Older.cwnd Older.tmp_win Older.open_window
rollback-cwnd_example =
    rollback-cwnd hundredths older_moved opened_once opened_twice 10500 9600 refl refl
