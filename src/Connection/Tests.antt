-- ===== src/Connection/Tests.antt =====
-- The theorems on `Connection` at a concrete sender and receiver.
use dmludp.Prelude.{
  ◌>>=◌, ℕ, ◌≢◌, ◌==◌, ◌≡◌, refl, List, [], ◌∷◌, ◌++◌, true, false, some, replicate, arith,
  be_digits, from_be_bytes, take, if◌then◌else◌,
}
use dmludp.Error.{ok}
use dmludp.Floats.Example.{hundredths}
use dmludp.Octets.Example.{sides, sides-OctetsLaws}
use dmludp.Packet.{to_bytes, byte_of_type, from_slice, elict_ack}
use dmludp.Connection.Verdicts.{weights}
use dmludp.Packet.Window.{new_space}
use dmludp.SendBuf.{new as new_send_buf}
use dmludp.RecvBuf.{new as new_recv_buf}
use dmludp.Connection.{Connection, write_pkt_type}
use dmludp.Connection.Wire.{put_request, put_all}
use dmludp.Connection.Send.{
  send_data, send_packet, send_request, send_offsets, pending, request_length, end_request,
}
use dmludp.Prelude.Maps.{lookup, update}
use dmludp.Connection.Receive.{recv_slice}
use dmludp.Connection.Request.{named}
use dmludp.Connection.Answer.{member, verdict}
use dmludp.SendBuf.{ack_and_drop}
use dmludp.SendBuf.Window.{IsValid, window}
use dmludp.Recovery.{update_win, winadd, outer_poly, flagged}
use dmludp.Connection.{priority_calculation}
use dmludp.Connection.Receive.{
  process_ack, ack_loop, ack_entry, drop_spent, weigh, drop_packet, count_high,
}
use dmludp.Connection.Settle.{Settled, process_ack-Settles}
use dmludp.Connection.Exchange.{request_is_answered}
use dmludp.Connection.Example.{sender, recovery, receiver, waiting, waiting-IsValid}
use dmludp.Connection.Paced.{IsPaced}
use dmludp.Connection.Closing.{close, closes}
use dmludp.Connection.Acknowledge.{Owes, paced}
use dmludp.Connection.Feedback.{acknowledgement_is_processed}
use dmludp.Connection.{is_stopped, max_ack}
use dmludp.RecvBuf.{max_ack as buffer_max_ack}
use dmludp.Connection.Dispatch.{IsReady, HasRoom}
use dmludp.Connection.Deliver.{packet_is_delivered}
use dmludp.RangeBuf.{RangeBuf, from as range_from}
use dmludp.SendBuf.Emit.{stops, sent_chunk}
use dmludp.Connection.Schedule.{send_data-IsPaced}

sender-IsPaced : IsPaced hundredths sides sender
sender-IsPaced = omega arith

-- the sender behind its request
abbrev asked : Connection hundredths
asked = record sender {
  sent_count = 0;
  ack_space = record new_space { next_pkt_num = 1 };
  ack_point = 1;
  stop_ack = true;
}

-- the packet: type 4, number 0, length 8, and the offset 1024
abbrev request : List ℕ
request = 4 ∷ (replicate 24 0 ++ (8 ∷ (replicate 6 0 ++ (4 ∷ 0 ∷ []))))

request_run : send_data hundredths sides sender (replicate 34 0) 5 ≡ some (ok 34, asked, request)
unfolding send_data send_packet write_pkt_type send_request send_offsets pending request_length
    end_request put_request put_all to_bytes byte_of_type be_digits
request_run = refl

send_data-IsPaced_example : IsPaced hundredths sides asked
send_data-IsPaced_example =
    send_data-IsPaced hundredths sides sender asked 5 (replicate 34 0) request (ok 34)
      sender-IsPaced (λ e. cc) request_run

request_is_answered_example :
    (c' r' : Connection hundredths) × (out' : List ℕ) × (send_data hundredths sides sender
        (replicate 40 0)
        5
      ≡ some (ok 34, c', out'))
    × (from_slice sides (take 34 out')
        ≡ ok (record { ty = elict_ack; pkt_num = 0; priority = 0; offset = 0; pkt_length = 8 }))
    × (named hundredths c' ≡ [])
    × (c'.sent_count ≡ 0)
    × (recv_slice hundredths sides receiver (take 34 out') 9 ≡ some (ok 0, r'))
    × (r'.send_num ≡ 0)
    × ((k : ℕ)
        → lookup k r'.recv_hashmap
          ≡ (if member k (1024 ∷ []) then some (verdict ((0, 3) ∷ []) k) else lookup k []))
request_is_answered_example =
    request_is_answered hundredths sides sides-OctetsLaws sender receiver (replicate 40 0) 5 9
      sender-IsPaced (refl, refl, refl) (omega arith, tt) (omega arith) (omega arith) (omega arith)
      (omega arith)

-- a header, the mark 0, and the offset 1024 with the verdict 0
abbrev acknowledgement : List ℕ
acknowledgement = replicate 34 0 ++ (replicate 6 0 ++ (4 ∷ 0 ∷ replicate 8 0))

abbrev settled : Connection hundredths
settled = record sender {
  send_buffer = record waiting { offset_recv = (1024, false) ∷ [] };
  recovery = record recovery { incre_win = 9600; roll_back_flag = true };
}

acknowledgement_run :
    process_ack hundredths (record sender { send_buffer = waiting }) acknowledgement ≡ some settled
unfolding process_ack ack_loop ack_entry drop_spent weigh drop_packet count_high lookup update
    ack_and_drop priority_calculation from_be_bytes update_win winadd outer_poly flagged
    new_send_buf
acknowledgement_run = refl

process_ack-Settles_example :
    IsValid settled.send_buffer × Settled (window waiting) (window settled.send_buffer)
process_ack-Settles_example =
    process_ack-Settles hundredths (record sender { send_buffer = waiting }) settled acknowledgement
      waiting-IsValid acknowledgement_run

abbrev chunk : RangeBuf
chunk = record { bytes = 5 ∷ 6 ∷ []; start = 0; pos = 0; len = 2; off = 1024 }

-- a sender that has this chunk to send
abbrev busy : Connection hundredths
busy = record sender {
  sent_count = 0;
  stop_flag = false;
  send_buffer = record waiting { len = 2; used_length = 2 };
}

busy-IsReady : IsReady hundredths busy chunk 3
unfolding write_pkt_type priority_calculation lookup new_send_buf
busy-IsReady = record {
  chosen = refl;
  rest = [];
  next = refl;
  chunk = record {
    starts = refl;
    untouched = refl;
    whole = refl;
    not_empty = omega arith;
    not_large = omega arith;
  };
  bytes_left = omega arith;
  bytes_used = omega arith;
  written = omega arith;
  has_priority = refl;
  may_retry = λ e. cc;
  not_stopped = refl;
}

busy-HasRoom : HasRoom hundredths busy chunk
unfolding new_send_buf
busy-HasRoom = record {
  end_u64 = omega arith;
  pos_u64 = omega arith;
  sent_u64 = omega arith;
  sent_count_u64 = omega arith;
  sent_number_u64 = omega arith;
  pkt_num_u64 = omega arith;
}

packet_is_delivered_example :
    (c' r' : Connection hundredths) × (out' : List ℕ) × (send_data hundredths sides busy
        (replicate 1200 0)
        5
      ≡ some (ok 28, c', out'))
    × (c'.sent_pkt ≡ 1024 ∷ 1024 ∷ [])
    × (c'.send_buffer ≡ sent_chunk busy.send_buffer chunk (stops busy.send_buffer chunk))
    × (recv_slice hundredths sides receiver (take 28 out') 9 ≡ some (ok 2, r'))
    × (lookup 1026 r'.rec_buffer.chunks ≡ some (range_from (5 ∷ 6 ∷ []) 1024))
    × ((k : ℕ) → 1026 ≢ k → lookup k r'.rec_buffer.chunks ≡ lookup k receiver.rec_buffer.chunks)
    × ((k : ℕ) → lookup k r'.recv_dic ≡ (if 1024 == k then some 3 else lookup k receiver.recv_dic))
packet_is_delivered_example =
    packet_is_delivered hundredths sides sides-OctetsLaws busy receiver chunk 3 (replicate 1200 0) 5
      9 busy-IsReady busy-HasRoom (omega arith) (omega arith)

-- a receiver that was asked about the packet at 1024, which it has
abbrev owing : Connection hundredths
owing = record receiver { stop_flag = false; recv_flag = true; recv_hashmap = (1024, 0) ∷ [] }

owing-Owes : Owes hundredths sides sides-OctetsLaws owing
unfolding write_pkt_type is_stopped max_ack buffer_max_ack new_recv_buf
owing-Owes = record {
  chosen = refl;
  runs = refl;
  entries = (omega arith, omega arith, tt);
  mark = omega arith;
  number = omega arith;
  short = omega arith;
}

acknowledgement_is_processed_example :
    (r' c' : Connection hundredths) × (out' : List ℕ) × (w : ℕ) × (send_data hundredths sides owing
        (replicate 60 0)
        5
      ≡ some (ok 50, r', out'))
    × (w
        ≡ weights hundredths
            (priority_calculation hundredths (record sender { send_buffer = waiting }))
            ((1024, 0) ∷ [])
            0)
    × (r'.recv_hashmap ≡ [])
    × (recv_slice hundredths sides (record sender { send_buffer = waiting }) (take 50 out') 9
        ≡ (do c'' ← paced hundredths sides sides-OctetsLaws c' w 1; some (ok 0, c'')))
    × (c'.recovery ≡ recovery)
    × IsValid c'.send_buffer
    × (window c'.send_buffer ≡ close (closes [] ((1024, 0) ∷ [])) (window waiting))
acknowledgement_is_processed_example =
    acknowledgement_is_processed hundredths sides sides-OctetsLaws owing
      (record sender { send_buffer = waiting }) (replicate 60 0) 5 9 owing-Owes (omega arith, tt)
      waiting-IsValid refl (omega arith) (omega arith) (omega arith)
