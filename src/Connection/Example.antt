-- ===== src/Connection/Example.antt =====
-- A concrete sender and receiver, to run the code of `Connection` on.
use dmludp.Prelude.{[], ◌∷◌, true, false, none, refl, arith}
use dmludp.Floats.Example.{hundredths}
use dmludp.Packet.Window.{new_space}
use dmludp.SendBuf.{new as new_send_buf, SendBuf}
use dmludp.RecvBuf.{new as new_recv_buf}
use dmludp.Recovery.{Recovery, default_state}
use dmludp.Connection.{Connection}
use dmludp.SendBuf.Window.{IsValid}

abbrev pub recovery : Recovery hundredths
recovery = record {
  cubic_state = default_state hundredths;
  lost_count = 0;
  in_flight_count = 0 ∷ 0 ∷ 0 ∷ [];
  app_limited = false;
  congestion_window = 9600;
  bytes_in_flight = 0;
  max_datagram_size = 1200;
  k = 100;
  incre_win = 0;
  decre_win = 0;
  former_win_vecter = [];
  roll_back_flag = false;
}

-- a sender whose last data packet, at offset 1024, ends the window
abbrev pub sender : Connection hundredths
sender = record {
  recv_count = 0;
  sent_count = 1;
  draining_timer = none;
  is_server = true;
  handshake_completed = true;
  handshake_confirmed = true;
  closed = false;
  timed_out = false;
  server = true;
  recovery = recovery;
  data_space = new_space;
  ack_space = new_space;
  rtt = 1000;
  handshake_time = 0;
  send_buffer = new_send_buf 10800;
  rec_buffer = new_recv_buf;
  written_data = 2048;
  stop_flag = true;
  stop_ack = false;
  prioritydic = [];
  sent_pkt = 1024 ∷ [];
  recv_dic = [];
  low_split_point = 0;
  high_split_point = 0;
  send_data = [];
  norm2_vec = 100 ∷ 200 ∷ [];
  total_offset = 2048;
  recv_flag = false;
  recv_hashmap = [];
  feed_back = false;
  ack_point = 0;
  max_off = 0;
  send_num = 0;
  high_priority = 0;
  sent_number = 1;
  recv_pkt_sent_num = [];
  sent_dic = [];
}

-- a receiver that has the packet at 0 and not the one at 1024
abbrev pub receiver : Connection hundredths
receiver = record sender { is_server = false; server = false; recv_dic = (0, 3) ∷ [] }

-- the packet at 1024, which waits for its acknowledgement
abbrev pub waiting : SendBuf
waiting = record (new_send_buf 10800) {
  chunks = record { bytes = 5 ∷ 6 ∷ []; start = 0; pos = 0; len = 2; off = 1024 } ∷ [];
  off = 1026;
  offset_recv = (1024, true) ∷ [];
}

pub waiting-IsValid : IsValid waiting
unfolding new_send_buf
waiting-IsValid = record {
  laid = (omega arith, refl, omega arith, omega arith);
  off_u64 = omega arith;
}
