-- ===== src/Connection.antt =====
-- `Connection` of src/lib.rs: a sender or a receiver of a stream. A `Duration` and an `Instant` are
-- numbers of nanoseconds, and an operation that reads the clock takes the time as an argument.
-- The two addresses, which the code only copies, are left out. `none` is a panic.
pub mod Wire
pub mod Send
pub mod Fill
pub mod NextWindow
pub mod Sender
pub mod Round
pub mod Midway
pub mod Batch
pub mod Delivery
pub mod Receive
pub mod Paced
pub mod Schedule
pub mod Request
pub mod Answer
pub mod Exchange
pub mod Dispatch
pub mod Deliver
pub mod Settle
pub mod Slices
pub mod Stream
pub mod System
pub mod Noted
pub mod Honest
pub mod Reliable
pub mod Closing
pub mod Verdicts
pub mod Report
pub mod Acknowledge
pub mod Feedback
pub mod Handshake
pub mod Text
pub mod Example
mod Tests
mod RoundTests
use dmludp.Prelude.{
  ℕ, ◌+◌, ◌-◌, ◌*◌, ◌/◌, ◌%◌, ◌==◌, ltb, Bool, true, false, ◌&&◌, ◌||◌, not, if◌then◌else◌, Option,
  some, none, List, [], ◌∷◌, get_elem?, ◌>>=◌,
}
use dmludp.Prelude.Maps.{lookup}
use dmludp.Error.{Result, ok, err, done}
use dmludp.Floats.{Floats}
use dmludp.Config.{Config}
use dmludp.Packet.{PacketType, handshake, application, elict_ack, ack, stop}
use dmludp.Packet.Window.{PktNumSpace, new_space}
use dmludp.SendBuf.{SendBuf, new as new_send_buf, is_nil, clear}
use dmludp.RecvBuf.{RecvBuf, new as new_recv_buf, max_ack as buffer_max_ack, emit as buffer_emit}
use dmludp.Recovery.{Recovery, new as new_recovery}
use dmludp.Recovery.Cubic.{on_init}

-- `ELICT_FLAG`
abbrev pub elict_flag : ℕ
elict_flag = 8

-- `MIN_CLIENT_INITIAL_LEN`
abbrev pub min_client_initial_len : ℕ
min_client_initial_len = 1350

module _ (f : Floats) where
  pub record Connection : Type 0 where
    pub recv_count : ℕ
    pub sent_count : ℕ
    pub draining_timer : Option ℕ
    pub is_server : Bool
    pub handshake_completed : Bool
    pub handshake_confirmed : Bool
    pub closed : Bool
    pub timed_out : Bool
    pub server : Bool
    pub recovery : Recovery f
    -- `pkt_num_spaces[0]` and `pkt_num_spaces[1]`
    pub data_space : PktNumSpace
    pub ack_space : PktNumSpace
    pub rtt : ℕ
    -- the time `handshake`
    pub handshake_time : ℕ
    pub send_buffer : SendBuf
    pub rec_buffer : RecvBuf
    pub written_data : ℕ
    pub stop_flag : Bool
    pub stop_ack : Bool
    pub prioritydic : List (ℕ × ℕ)
    pub sent_pkt : List ℕ
    pub recv_dic : List (ℕ × ℕ)
    pub low_split_point : f.F32
    pub high_split_point : f.F32
    pub send_data : List ℕ
    pub norm2_vec : List f.F32
    pub total_offset : ℕ
    pub recv_flag : Bool
    pub recv_hashmap : List (ℕ × ℕ)
    pub feed_back : Bool
    pub ack_point : ℕ
    pub max_off : ℕ
    pub send_num : ℕ
    pub high_priority : ℕ
    pub sent_number : ℕ
    pub recv_pkt_sent_num : List ℕ
    pub sent_dic : List (ℕ × ℕ)

  -- `Connection::new`
  unfoldable pub new : Config → Bool → ℕ → Option (Result Connection)
  unfolding on_init
  new config is_server now = do
    recovery ← new_recovery f config
    some (
        ok (record {
          recv_count = 0;
          sent_count = 0;
          draining_timer = none;
          is_server = is_server;
          handshake_completed = false;
          handshake_confirmed = true;
          closed = false;
          timed_out = false;
          server = is_server;
          recovery = on_init f recovery;
          data_space = new_space;
          ack_space = new_space;
          rtt = 0;
          handshake_time = now;
          send_buffer = new_send_buf (min_client_initial_len * 8);
          rec_buffer = new_recv_buf;
          written_data = 0;
          stop_flag = false;
          stop_ack = false;
          prioritydic = [];
          sent_pkt = [];
          recv_dic = [];
          low_split_point = f.lit32 0 0;
          high_split_point = f.lit32 0 0;
          send_data = [];
          norm2_vec = [];
          total_offset = 0;
          recv_flag = false;
          recv_hashmap = [];
          feed_back = false;
          ack_point = 0;
          max_off = 0;
          send_num = 0;
          high_priority = 0;
          sent_number = 0;
          recv_pkt_sent_num = [];
          sent_dic = [];
        }))

  unfoldable pub accept : Config → ℕ → Option (Result Connection)
  unfolding new
  accept config now = new config true now

  unfoldable pub connect : Config → ℕ → Option (Result Connection)
  unfolding new
  connect config now = new config false now

  unfoldable pub update_rtt : Connection → ℕ → Connection
  update_rtt c now = record c {
    rtt = if c.rtt == 0 then now - c.handshake_time else 17 * (now - c.handshake_time) / 16;
  }

  unfoldable pub new_rtt : Connection → ℕ → Connection
  new_rtt c last = record c { rtt = c.rtt / 4 + 3 * last / 4 }

  unfoldable pub send_ack : Connection → Bool
  send_ack c = c.feed_back

  -- `*self.prioritydic.get(unack).unwrap()`
  unfoldable pub findweight : Connection → ℕ → Option ℕ
  findweight c unack = lookup unack c.prioritydic

  unfoldable pub is_stopped : Connection → Bool
  is_stopped c = c.stop_flag && c.stop_ack

  unfoldable pub is_ack : Connection → ℕ → Bool
  is_ack c now = ltb c.rtt (now - c.handshake_time)

  unfoldable pub read : Connection → List ℕ → Option (Result ℕ × Connection × List ℕ)
  read c out = do
    (res, buffer, out') ← buffer_emit c.rec_buffer out
    some (res, record c { rec_buffer = buffer }, out')

  unfoldable pub max_ack : Connection → ℕ
  max_ack c = buffer_max_ack c.rec_buffer

  unfoldable pub priority_calculation : Connection → ℕ → Option ℕ
  priority_calculation c off = do
    norm ← get_elem? c.norm2_vec (off / 1024)
    some (
        if f.lt32 norm c.low_split_point
        then 1
        else if f.lt32 norm c.high_split_point
        then 2
        else 3)

  unfoldable pub reset : Connection → Connection
  reset c = record c { norm2_vec = []; send_buffer = clear c.send_buffer }

  unfoldable pub set_handshake : Connection → ℕ → Connection
  set_handshake c now = record c { handshake_time = now }

  unfoldable pub max_send_udp_payload_size : Connection → ℕ
  max_send_udp_payload_size c = min_client_initial_len

  unfoldable pub is_established : Connection → Bool
  is_established c = c.handshake_completed

  unfoldable pub is_draining : Connection → Bool
  is_draining c = elim c.draining_timer [ some t ↦ true | none ↦ false ]

  unfoldable pub is_closed : Connection → Bool
  is_closed c = c.closed

  unfoldable pub is_timed_out : Connection → Bool
  is_timed_out c = c.timed_out

  unfoldable pub write_pkt_type : Connection → Result PacketType × Connection
  write_pkt_type c =
      if c.rtt == 0 && c.is_server
      then (ok handshake, record c { handshake_completed = true })
      else if not c.handshake_confirmed && not c.is_server
      then (ok handshake, record c { handshake_confirmed = true })
      else if (c.sent_count % elict_flag == 0 && ltb 0 c.sent_count) || c.stop_flag
      then (ok elict_ack, record c { sent_count = 0 })
      else if c.recv_flag
      then (ok ack, record c { recv_flag = false })
      else if not (c.rtt == 0)
      then (ok application, c)
      else if is_nil c.send_buffer.chunks
      then (ok stop, c)
      else (err done, c)
