-- ===== src/Connection/System/Tests.antt =====
-- The theorems on a sender, a receiver and the network at a concrete run: a round, a packet, and its
-- arrival.
use dmludp.Prelude.{
  Option, ℕ, ◌+◌, ◌≤◌, ◌≡◌, refl, List, [], ◌∷◌, length, take, drop, some, none, replicate, chunks,
  be_digits, from_be_bytes, true, false, arith, inl,
}
use dmludp.Prelude.Maps.{lookup, tree_insert, hash_insert, contains_key, last_key}
use dmludp.Error.{Result, ok}
use dmludp.Floats.Example.{hundredths}
use dmludp.Octets.Example.{sides, sides-OctetsLaws}
use dmludp.RangeBuf.{RangeBuf, from as range_from, is_empty as range_is_empty, off as range_off}
use dmludp.Connection.Wire.{put_header, put_ack}
use dmludp.Packet.{from_slice, Header, application, to_bytes, byte_of_type, type_of_byte}
use dmludp.Packet.RoundTrip.{IsHeader, encoded}
use dmludp.Connection.Deliver.{delivered, recv_slice_chunk}
use dmludp.SendBuf.{
  new as new_send_buf, write as buffer_write, write_data, write_loop, push_chunk, emit, off_front,
  emit_loop, ready, wrap_pos,
}
use dmludp.RecvBuf.{new as new_recv_buf}
use dmludp.Recovery.{cwnd, tmp_win, open_window, set_insert, update_win, winadd}
use dmludp.Connection.{Connection, priority_calculation, is_stopped, write_pkt_type, max_ack}
use dmludp.Connection.Example.{sender, receiver, recovery}
use dmludp.Connection.Fill.{send_all}
use dmludp.Connection.Send.{Sent, send_data, request_header}
use dmludp.Connection.System.{System, IsStart, Reach, start, later, filled, sent, arrived}
use dmludp.Connection.Request.{words}
use dmludp.Connection.Answer.{member, answered, recv_slice_lem}
use dmludp.Connection.Noted.{noting}
use dmludp.Connection.Receive.{recv_slice, ack_loop, ack_entry}
use dmludp.Connection.Honest.{Receives, begins, hears, report_is_honest}
use dmludp.Connection.Reliable.{Accounted, acknowledged_was_named}
use dmludp.Connection.Acknowledge.{Owes}
use dmludp.SendBuf.Window.{IsValid, window}
use dmludp.RecvBuf.{max_ack as buffer_max_ack}
use dmludp.Connection.System.Safety.{received_was_sent}

abbrev stream : List ℕ
stream = 5 ∷ 6 ∷ 7 ∷ []

abbrev begun : System hundredths
begun = record {
  sender = record sender {
    sent_count = 0;
    written_data = 0;
    total_offset = 0;
    send_data = stream;
    stop_flag = false;
    sent_pkt = [];
    sent_number = 0;
  };
  receiver = record receiver { recv_dic = []; stop_flag = false };
  network = [];
}

-- the sender behind the round
abbrev filled_sender : Connection hundredths
filled_sender =
    let c : Connection hundredths = begun.sender in
    record c {
      recovery = record recovery { former_win_vecter = 0 ∷ [] };
      handshake_time = 5;
      send_buffer = record (new_send_buf 10800) {
        chunks = record { bytes = stream; start = 0; pos = 0; len = 3; off = 0 } ∷ [];
        off = 3;
        len = 3;
        used_length = 3;
        max_data = 9600;
        offset_recv = (0, true) ∷ [];
      };
      written_data = 3;
      total_offset = 3;
    }

-- its packet, and what the calls leave
abbrev call : Sent hundredths
call = send_data hundredths sides filled_sender (replicate 1050 0) 10

abbrev sender_of : Sent hundredths → Connection hundredths
sender_of (some (r, c, out)) = c
sender_of none = sender

abbrev packet_of : Sent hundredths → List ℕ
packet_of (some (ok n, c, out)) = out
packet_of _ = []

abbrev chunk : RangeBuf
chunk = record { bytes = stream; start = 0; pos = 0; len = 3; off = 0 }

abbrev packet_header : Header
packet_header = record { ty = application; pkt_num = 0; priority = 3; offset = 0; pkt_length = 3 }

abbrev there : System hundredths
there = record {
  sender = sender_of call;
  receiver = delivered hundredths begun.receiver chunk 3;
  network = take 29 (packet_of call) ∷ [];
}

begun-IsStart : IsStart hundredths stream begun
unfolding new_send_buf new_recv_buf
begun-IsStart = record {
  stream = refl;
  short = omega arith;
  no_chunks = refl;
  no_flags = refl;
  at_start = refl;
  running = refl;
  none_written = refl;
  no_offset = refl;
  none_sent = refl;
  none_named = refl;
  none_counted = refl;
  owes_nothing = refl;
  no_packets = refl;
  none_received = refl;
}

-- The three calls are run one by one.
filled_runs : send_all hundredths begun.sender 5 ≡ some (ok true, filled_sender)
unfolding send_all cwnd tmp_win open_window buffer_write new_send_buf write_data write_loop chunks
    push_chunk set_insert range_from tree_insert
filled_runs = refl

sent_runs : call ≡ some (ok 29, sender_of call, packet_of call)
unfolding send_data emit off_front emit_loop ready new_send_buf priority_calculation range_is_empty
    range_off lookup put_header to_bytes is_stopped wrap_pos
sent_runs = refl

on_the_way : take 29 (packet_of call) ≡ encoded packet_header stream
unfolding send_data emit off_front emit_loop ready new_send_buf priority_calculation range_is_empty
    range_off lookup put_header to_bytes is_stopped wrap_pos be_digits byte_of_type
on_the_way = refl

packet_header-IsHeader : IsHeader packet_header
packet_header-IsHeader = record {
  pkt_num_u64 = omega arith;
  priority_u8 = omega arith;
  offset_u64 = omega arith;
  pkt_length_u64 = omega arith;
}

there_reached : Reach hundredths sides stream there
there_reached =
    later
      (later
        (later (start begun begun-IsStart) (
          filled 5 (ok true) filled_sender (record { increments = omega arith; history = tt })
            filled_runs))
        (sent 10 29 (replicate 1050 0) (packet_of call) (sender_of call) (omega arith) sent_runs))
      (arrived 20 (encoded packet_header stream) (ok 3)
        (delivered hundredths begun.receiver chunk 3) (inl on_the_way)
        (recv_slice_chunk hundredths sides sides-OctetsLaws begun.receiver packet_header chunk 20
          packet_header-IsHeader refl refl (omega arith) (omega arith)))

received_was_sent_example :
    (◌≡◌ {A = ℕ} 3 (0 + length stream))
    × (3 ≤ length stream)
    × (stream ≡ take (length stream) (drop 0 stream))
unfolding lookup tree_insert new_recv_buf range_from
received_was_sent_example =
    received_was_sent hundredths sides sides-OctetsLaws stream there 3 chunk there_reached refl

-- a receiver that is given that packet, and then a request that names it
abbrev data_packet : List ℕ
data_packet = encoded packet_header stream

abbrev request : List ℕ
request = encoded (request_header hundredths 0 64) (words (0 ∷ []))

abbrev holding : Connection hundredths
holding = delivered hundredths begun.receiver chunk 3

abbrev asked : Connection hundredths
asked = answered hundredths holding 0 (0 ∷ [])

asked-Receives :
    Receives hundredths sides (noting sides request (noting sides data_packet [])) asked
unfolding new_recv_buf
asked-Receives =
    hears asked request 30 (ok 0)
      (hears holding data_packet 20 (ok 3) (begins begun.receiver refl refl) (
        recv_slice_chunk hundredths sides sides-OctetsLaws begun.receiver packet_header chunk 20
          packet_header-IsHeader refl refl (omega arith) (omega arith)))
      (recv_slice_lem hundredths sides sides-OctetsLaws holding 0 64 30 (0 ∷ []) (omega arith)
        (omega arith) (omega arith) (omega arith, tt))

report_is_honest_example : member 0 (noting sides request (noting sides data_packet [])) ≡ true
unfolding lookup hash_insert contains_key
report_is_honest_example =
    report_is_honest hundredths sides (noting sides request (noting sides data_packet [])) asked 0
      asked-Receives refl

-- Its acknowledgement, which the sender is given.
abbrev reply : Sent hundredths
reply = send_data hundredths sides asked (replicate 60 0) 40

abbrev acknowledged : Option (Result ℕ × Connection hundredths)
acknowledged = recv_slice hundredths sides filled_sender (take 50 (packet_of reply)) 50

abbrev state_of : Option (Result ℕ × Connection hundredths) → Connection hundredths
state_of (some (r, c)) = c
state_of none = sender

asked-Owes : Owes hundredths sides sides-OctetsLaws asked
unfolding write_pkt_type is_stopped max_ack buffer_max_ack new_recv_buf hash_insert contains_key
    last_key
asked-Owes = record {
  chosen = refl;
  runs = refl;
  entries = (omega arith, omega arith, tt);
  mark = omega arith;
  number = omega arith;
  short = omega arith;
}

reply_runs : reply ≡ some (ok 50, sender_of reply, packet_of reply)
unfolding send_data write_pkt_type hash_insert put_ack to_bytes is_stopped
reply_runs = refl

acknowledged_runs : acknowledged ≡ some (ok 0, state_of acknowledged)
unfolding send_data write_pkt_type hash_insert put_ack to_bytes is_stopped recv_slice from_slice
    be_digits byte_of_type max_ack buffer_max_ack new_recv_buf contains_key last_key type_of_byte
    ack_loop ack_entry from_be_bytes priority_calculation lookup update_win winadd
acknowledged_runs = refl

filled-IsValid : IsValid filled_sender.send_buffer
unfolding new_send_buf
filled-IsValid = record {
  laid = (omega arith, refl, omega arith, omega arith);
  off_u64 = omega arith;
}

acknowledged_was_named_example :
    Accounted
      (noting sides request (noting sides data_packet []))
      []
      (window filled_sender.send_buffer)
      (window (state_of acknowledged).send_buffer)
unfolding hash_insert
acknowledged_was_named_example =
    acknowledged_was_named hundredths sides sides-OctetsLaws
      (noting sides request (noting sides data_packet [])) asked filled_sender (sender_of reply)
      (state_of acknowledged) (replicate 60 0) (packet_of reply) 40 50 50 (ok 0) asked-Receives
      asked-Owes (omega arith, tt) filled-IsValid refl (omega arith) (omega arith) (omega arith)
      reply_runs acknowledged_runs
