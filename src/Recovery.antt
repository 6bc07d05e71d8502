-- ===== src/Recovery.antt =====
-- `Recovery` of src/recovery/mod.rs: the congestion window, and the windows to fall back to. The
-- timers and RTT fields, which nothing reads or writes after `new`, are left out. `none` is a panic.
pub mod Cubic
pub mod Cwnd
pub mod Older
pub mod Rollback
mod Tests
use dmludp.Prelude.{
  ℕ, ◌-◌, ◌*◌, ◌%◌, ◌==◌, ltb, leb, Bool, true, false, ◌||◌, not, if◌then◌else◌, Option, some, none,
  List, [], ◌∷◌, add64, sub64, mul64, ◌>>=◌,
}
use dmludp.Floats.{Floats}
use dmludp.Config.{Config}

abbrev pub initial_window_packets : ℕ
initial_window_packets = 8

abbrev pub elict_ack_constant : ℕ
elict_ack_constant = 8

abbrev pub minimum_window_packets : ℕ
minimum_window_packets = 2

abbrev pub packet_size : ℕ
packet_size = 1200

abbrev pub ini_win : ℕ
ini_win = 9600

-- `RecoveryConfig::from_config`, of which `new_with_config` reads this one number; the congestion
-- control operations can only be those of `NewCubic`.
unfoldable pub config_payload_size : Config → ℕ
config_payload_size c = c.max_send_udp_payload_size

-- `BTreeSet<usize>`, as the list of its members in ascending order
unfoldable pub set_insert : ℕ → List ℕ → List ℕ
set_insert n [] = n ∷ []
set_insert n (x ∷ xs) =
    if x == n then x ∷ xs else if ltb n x then n ∷ x ∷ xs else x ∷ set_insert n xs

-- `pop_last`: the largest member, and the set without it
unfoldable pub pop_last : List ℕ → Option (ℕ × List ℕ)
pop_last [] = none
pop_last (x ∷ []) = some (x, [])
pop_last (x ∷ y ∷ xs) = do (m, rest) ← pop_last (y ∷ xs); some (m, x ∷ rest)

module _ (f : Floats) where
  -- `NewCubic::PriorState`
  pub record PriorState : Type 0 where
    pub congestion_window : ℕ
    pub w_max : f.F64
    pub k : f.F64
    pub lost_count : ℕ

  -- `NewCubic::State`
  pub record State : Type 0 where
    pub k : f.F64
    pub w_max : f.F64
    pub prior : PriorState

  pub record Recovery : Type 0 where
    pub cubic_state : State
    pub lost_count : ℕ
    pub in_flight_count : List ℕ
    pub app_limited : Bool
    pub congestion_window : ℕ
    pub bytes_in_flight : ℕ
    pub max_datagram_size : ℕ
    pub k : f.F64
    pub incre_win : ℕ
    pub decre_win : ℕ
    pub former_win_vecter : List ℕ
    pub roll_back_flag : Bool

  -- `State::default()`
  abbrev pub default_state : State
  default_state = record {
    k = f.lit 0 0;
    w_max = f.lit 0 0;
    prior = record { congestion_window = 0; w_max = f.lit 0 0; k = f.lit 0 0; lost_count = 0 };
  }

  -- `Recovery::new` and `new_with_config`
  unfoldable pub new : Config → Option Recovery
  unfolding config_payload_size
  new c = do
    initial_congestion_window ← mul64 (config_payload_size c) initial_window_packets
    some (record {
      cubic_state = default_state;
      lost_count = 0;
      in_flight_count = 0 ∷ 0 ∷ 0 ∷ [];
      app_limited = false;
      congestion_window = initial_congestion_window;
      bytes_in_flight = 0;
      max_datagram_size = packet_size;
      k = f.lit 10 1;
      incre_win = 0;
      decre_win = 0;
      former_win_vecter = [];
      roll_back_flag = false;
    })

  -- a w³ + b w² + c w + d in the order in which the source computes it, for the two polynomials
  -- of `update_win`
  unfoldable pub outer_poly : f.F64 → f.F64
  outer_poly w =
      f.add
        (f.sub
          (f.add (f.mul (f.neg (f.lit 2294 2)) (f.powi w 3)) (f.mul (f.lit 6583 2) (f.powi w 2)))
          (f.mul (f.lit 5189 2) w))
        (f.lit 80 1)

  unfoldable pub inner_poly : f.F64 → f.F64
  inner_poly w =
      f.add
        (f.sub
          (f.sub (f.mul (f.neg (f.lit 1587 4)) (f.powi w 3)) (f.mul (f.lit 4658 4) (f.powi w 2)))
          (f.mul (f.lit 4538 4) w))
        (f.lit 1535 4)

  unfoldable pub winadd : Recovery → f.F32 → f.F64
  unfolding outer_poly inner_poly
  winadd r weights =
      if f.lt32 weights (f.lit32 2 1) || f.lt32 (f.lit32 18 1) weights
      then f.mul (outer_poly (f.widen weights)) (f.of_usize r.max_datagram_size)
      else f.mul (inner_poly (f.widen weights)) (f.of_usize r.max_datagram_size)

  -- the flag that `update_win` sets
  unfoldable pub flagged : Recovery → f.F64 → f.F64 → Recovery
  flagged r add num = if f.eq add num then r else record r { roll_back_flag = true }

  unfoldable pub update_win : Recovery → f.F32 → f.F64 → Option Recovery
  unfolding flagged
  update_win r weights num =
      let add = winadd r weights in
      let r' = flagged r add num in
      if f.lt (f.lit 0 1) add
      then (do n ← add64 r'.incre_win (f.to_usize add); some (record r' { incre_win = n }))
      else (do n ← add64 r'.decre_win (f.to_usize (f.neg add)); some (record r' { decre_win = n }))

  unfoldable pub should_elicit_ack : Recovery → ℕ → Bool
  should_elicit_ack r pkt_num = pkt_num % elict_ack_constant == 0

  -- the first half of `cwnd`
  unfoldable pub tmp_win : Recovery → Option ℕ
  tmp_win r = do
    twice ← mul64 2 r.incre_win
    if ltb r.decre_win twice then sub64 twice r.decre_win else some 0

  -- the second half, given `tmp_win`
  unfoldable pub open_window : Recovery → ℕ → ℕ × Recovery
  open_window r win =
      let r' = record r {
        former_win_vecter =
            if r.roll_back_flag then r.former_win_vecter else set_insert win r.former_win_vecter;
        congestion_window = win;
        incre_win = 0;
        decre_win = 0;
      } in
      if leb (packet_size * initial_window_packets) win then (win, r') else (
        packet_size * initial_window_packets,
        record r' { congestion_window = packet_size * initial_window_packets },
      )

  unfoldable pub cwnd : Recovery → Option (ℕ × Recovery)
  cwnd r = do win ← tmp_win r; some (open_window r win)

  -- `saturating_sub`
  unfoldable pub cwnd_available : Recovery → ℕ
  cwnd_available r = r.congestion_window - r.bytes_in_flight

  unfoldable pub update_app_limited : Recovery → Bool → Recovery
  update_app_limited r v = record r { app_limited = v }

  unfoldable pub rollback : Recovery → ℕ × Recovery
  rollback r = elim (pop_last r.former_win_vecter) [
    | none ↦ (ini_win, record r { congestion_window = ini_win })
    | some (m, rest) ↦ (m, record r { congestion_window = m; former_win_vecter = rest })
  ]
