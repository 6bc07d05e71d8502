-- ===== src/Recovery/Older.antt =====
-- src/recovery/modv1.rs, the congestion control that src/recovery/mod.rs replaced: one former window
-- in place of a set of them. The file is not part of the build. Its congestion control operations,
-- which it takes from a module that it does not come with, are a parameter of the calls.
pub mod Compare
mod Tests
use dmludp.Prelude.{
  ℕ, ◌-◌, ◌*◌, ◌%◌, ◌==◌, ltb, leb, Bool, true, false, if◌then◌else◌, Option, some, List, [], ◌∷◌,
  add64, sub64, mul64, ◌>>=◌,
}
use dmludp.Floats.{Floats}
use dmludp.Config.{Config}
use dmludp.Recovery.{
  State, default_state, config_payload_size, initial_window_packets, elict_ack_constant,
  packet_size, ini_win,
}

module _ (f : Floats) where
  pub record Recovery : Type 0 where
    pub cubic_state : State f
    pub lost_count : ℕ
    pub in_flight_count : List ℕ
    pub app_limited : Bool
    pub congestion_window : ℕ
    pub bytes_in_flight : ℕ
    pub max_datagram_size : ℕ
    pub k : f.F64
    pub incre_win : ℕ
    pub decre_win : ℕ
    pub former_win : ℕ

  -- `Recovery::new` and `new_with_config`
  unfoldable pub new : Config → Option Recovery
  new c = do
    initial_congestion_window ← mul64 (config_payload_size c) initial_window_packets
    some (record {
      cubic_state = default_state f;
      lost_count = 0;
      in_flight_count = 0 ∷ 0 ∷ 0 ∷ [];
      app_limited = false;
      congestion_window = initial_congestion_window;
      bytes_in_flight = 0;
      max_datagram_size = packet_size;
      k = f.lit 12 1;
      incre_win = 0;
      decre_win = 0;
      former_win = ini_win;
    })

  unfoldable pub on_init : (Recovery → Recovery) → Recovery → Recovery
  on_init cc_on_init r = cc_on_init r

  unfoldable pub reset : (Recovery → Recovery) → Recovery → Option Recovery
  reset cc_reset r = do
    win ← mul64 r.max_datagram_size initial_window_packets
    some (cc_reset (record r { congestion_window = win; in_flight_count = 0 ∷ 0 ∷ 0 ∷ [] }))

  unfoldable pub collapse_cwnd : (Recovery → Recovery) → Recovery → Recovery
  collapse_cwnd cc_collapse_cwnd r = cc_collapse_cwnd r

  -- half of the scale of the curve: `(self.k*num)/8.0`
  unfoldable pub center : Recovery → f.F64 → f.F64
  center r num = f.div (f.mul r.k num) (f.lit 80 1)

  -- -num (weights - center)³ / center³ packets
  unfoldable pub winadd : Recovery → f.F32 → f.F64 → f.F64
  unfolding center
  winadd r weights num =
      f.mul
        (f.div (f.mul (f.neg num) (f.powi (f.sub (f.widen weights) (center r num)) 3))
          (f.powi (center r num) 3))
        (f.of_usize r.max_datagram_size)

  unfoldable pub update_win : Recovery → f.F32 → f.F64 → Option Recovery
  update_win r weights num =
      let add = winadd r weights num in
      if f.lt (f.lit 0 1) add
      then (do n ← add64 r.incre_win (f.to_usize add); some (record r { incre_win = n }))
      else (do n ← add64 r.decre_win (f.to_usize (f.neg add)); some (record r { decre_win = n }))

  unfoldable pub should_elicit_ack : Recovery → ℕ → Bool
  should_elicit_ack r pkt_num = pkt_num % elict_ack_constant == 0

  -- the first half of `cwnd`
  unfoldable pub tmp_win : Recovery → Option ℕ
  tmp_win r = do
    twice ← mul64 2 r.incre_win
    if ltb r.decre_win twice then sub64 twice r.decre_win else some 0

  -- the second half, given `tmp_win`
  unfoldable pub open_window : Recovery → ℕ → ℕ × Recovery
  open_window r win =
      let r' = record r {
        former_win = if r.decre_win == 0 then win else r.former_win;
        congestion_window = win;
        incre_win = 0;
        decre_win = 0;
      } in
      if leb (packet_size * initial_window_packets) win then (win, r') else (
        packet_size * initial_window_packets,
        record r' { congestion_window = packet_size * initial_window_packets },
      )

  unfoldable pub cwnd : Recovery → Option (ℕ × Recovery)
  unfolding tmp_win open_window
  cwnd r = do win ← tmp_win r; some (open_window r win)

  -- `saturating_sub`
  unfoldable pub cwnd_available : Recovery → ℕ
  cwnd_available r = r.congestion_window - r.bytes_in_flight

  unfoldable pub update_app_limited : Recovery → Bool → Recovery
  update_app_limited r v = record r { app_limited = v }

  unfoldable pub rollback : Recovery → ℕ × Recovery
  rollback r = (r.former_win, record r { congestion_window = r.former_win })
