-- ===== src/Connection/Send.antt =====
-- The sending half of `Connection` of src/lib.rs: `send_data` makes one packet in the caller's buffer
-- `out`, which is returned behind the new state. (`SendInfo`, a copy of the two addresses, is left
-- out of the result.)
use dmludp.Prelude.{
  ℕ, ◌*◌, leb, Bool, false, ◌||◌, if◌then◌else◌, Option, some, none, List, [], ◌∷◌, ◌++◌, length,
  take, add64, sub64, slice_from, ◌>>=◌,
}
use dmludp.Prelude.Maps.{lookup, hash_insert}
use dmludp.Error.{Result, ok, err, done, buffer_too_short}
use dmludp.Floats.{Floats}
use dmludp.Octets.{Octets}
use dmludp.Packet.{PacketType, Header, handshake, application, elict_ack, ack, stop}
use dmludp.SendBuf.{is_nil, emit}
use dmludp.Connection.{
  Connection, write_pkt_type, priority_calculation, is_stopped, set_handshake, max_ack,
}
use dmludp.Connection.Wire.{put_header, put_ack, put_request}

abbrev pub header_length : ℕ
header_length = 26

module _ (f : Floats) where
  abbrev pub Sent : Type 0
  Sent = Option (Result ℕ × Connection f × List ℕ)

  -- the end of `send_data`
  unfoldable pub finish : Connection f → ℕ → List ℕ → ℕ → Sent
  finish c psize out now = if is_stopped f c then some (err done, c, out) else (do
    total_len ← add64 header_length psize
    some (ok total_len, record c { handshake_time = now }, out))

  -- the offsets sent since the last request
  unfoldable pub pending : Connection f → Option (List ℕ)
  pending c = slice_from c.sent_pkt c.ack_point

  -- `if let Some(x) = self.sent_dic.get_mut(&off) { *x -= 1; } else { … }`
  unfoldable pub count_sent : List (ℕ × ℕ) → ℕ → ℕ → Option (List (ℕ × ℕ))
  count_sent dic off priority = elim (lookup off dic) [
    | some x ↦ do y ← sub64 x 1; some (hash_insert off y dic)
    | none ↦ some (hash_insert off priority dic)
  ]

  -- the counters that `send_data` moves on for a packet that `emit` has filled, and its priority
  unfoldable pub count_chunk : Connection f → ℕ → Option (ℕ × Connection f)
  unfolding count_sent
  count_chunk c off = do
    sent_count ← add64 c.sent_count 1
    sent_number ← add64 c.sent_number 1
    priority ← priority_calculation f c off
    let space = c.data_space
    next_pkt_num ← add64 space.next_pkt_num 1
    sent_dic ← count_sent c.sent_dic off priority
    some (
      priority,
      record c {
        sent_count = sent_count;
        sent_number = sent_number;
        data_space = record space { next_pkt_num = next_pkt_num };
        sent_dic = sent_dic;
      },
    )

  -- `send_data` behind the header of such a packet, given what writing it returned
  unfoldable pub end_chunk : Result (Unit {0}) × List ℕ → Connection f → ℕ → ℕ → Bool → ℕ → Sent
  unfolding finish
  end_chunk (err e, out) c result_len off stopped now = some (err e, c, out)
  end_chunk (ok _, out) c result_len off stopped now =
      finish (record c { stop_flag = c.stop_flag || stopped; sent_pkt = c.sent_pkt ++ (off ∷ []) })
        result_len out now

  unfoldable pub send_chunk : Octets → Connection f → ℕ → ℕ → Bool → List ℕ → ℕ → Sent
  unfolding count_chunk end_chunk
  send_chunk o c result_len off stopped out now = do
    (priority, c1) ← count_chunk c off
    let hdr : Header = record {
      ty = application;
      pkt_num = c.data_space.next_pkt_num;
      priority = priority;
      offset = off;
      pkt_length = result_len;
    }
    end_chunk (put_header o hdr out) c1 result_len off stopped now

  -- the branch of `send_data` for `Application` behind `emit`
  unfoldable pub send_emitted : Octets → Result (ℕ × ℕ × Bool) → Connection f → List ℕ → ℕ → Sent
  unfolding send_chunk finish
  send_emitted o (err e) c out now = finish c 0 out now
  send_emitted o (ok (result_len, off, stopped)) c out now =
      if leb c.written_data off
      then some (err done, c, out)
      else send_chunk o c result_len off stopped out now

  -- the branch for `Application`
  unfoldable pub send_application : Octets → Connection f → List ℕ → ℕ → Sent
  unfolding send_emitted
  send_application o c out now = do
    payload ← slice_from out header_length
    (r, buffer, payload') ← emit c.send_buffer payload
    send_emitted o r (record c { send_buffer = buffer }) (take header_length out ++ payload') now

  -- the branch for `ElictAck` behind what it writes
  unfoldable pub end_request : Result (Unit {0}) × List ℕ → Connection f → ℕ → Sent
  end_request (err e, out) c psize = some (err e, c, out)
  end_request (ok _, out) c psize = do
    total_len ← add64 header_length psize
    some (
      ok total_len,
      record c { ack_point = length c.sent_pkt; stop_ack = c.stop_ack || c.stop_flag },
      out,
    )

  -- the length that the header of a request gives, in the two cases
  unfoldable pub request_length : Connection f → List ℕ → ℕ
  request_length c offsets = if c.stop_flag then length offsets * 8 else 64

  -- the header of a request
  abbrev pub request_header : ℕ → ℕ → Header
  request_header pkt_num psize = record {
    ty = elict_ack;
    pkt_num = pkt_num;
    priority = 0;
    offset = 0;
    pkt_length = psize;
  }

  -- the branch for `ElictAck`, behind the packet number
  unfoldable pub send_offsets : Octets → Connection f → ℕ → List ℕ → Sent
  unfolding pending end_request request_length
  send_offsets o c pkt_num out = do
    offsets ← pending c
    written ← put_request o (request_header pkt_num (request_length c offsets)) offsets out
    end_request written c (request_length c offsets)

  -- the branch for `ElictAck`
  unfoldable pub send_request : Octets → Connection f → List ℕ → Sent
  unfolding send_offsets
  send_request o c out = do
    let space = c.ack_space
    next_pkt_num ← add64 space.next_pkt_num 1
    send_offsets o (record c { ack_space = record space { next_pkt_num = next_pkt_num } })
        space.next_pkt_num out

  -- the branch for `ACK` behind what it writes
  unfoldable pub end_ack : Result (Unit {0}) × List ℕ → Connection f → ℕ → ℕ → Sent
  unfolding finish
  end_ack (err e, out) c psize now = some (err e, c, out)
  end_ack (ok _, out) c psize now = finish (record c { recv_hashmap = [] }) psize out now

  -- the header of an acknowledgement
  abbrev pub ack_header : Connection f → ℕ → Header
  ack_header c psize = record {
    ty = ack;
    pkt_num = c.send_num;
    priority = 0;
    offset = 0;
    pkt_length = psize;
  }

  -- the branch for `ACK`
  unfoldable pub send_acknowledgement : Octets → Connection f → List ℕ → ℕ → Sent
  unfolding end_ack max_ack
  send_acknowledgement o c out now = do
    let c1 = record c { feed_back = false }
    psize ← add64 (length c1.recv_hashmap * 8 * 2) 8
    end_ack (put_ack o (ack_header c1 psize) (max_ack f c1) c1.recv_hashmap out) c1 psize now

  -- the header of a packet that has nothing else
  abbrev pub bare : PacketType → Header
  bare ty = record { ty = ty; pkt_num = 0; priority = 0; offset = 0; pkt_length = 0 }

  -- the branches for `Handshake`
  unfoldable pub send_handshake : Octets → Connection f → List ℕ → ℕ → Sent
  unfolding finish set_handshake
  send_handshake o c out now =
      let (r, out') = put_header o (bare handshake) out in
      elim r [
        | err e ↦ some (err e, c, out')
        | ok _ ↦
            finish (if c.server then set_handshake f c now else record c { feed_back = false }) 0
              out' now
      ]

  -- the branch for `Stop`
  unfoldable pub send_stop : Octets → Connection f → List ℕ → Sent
  send_stop o c out =
      let (r, out') = put_header o (bare stop) out in
      elim r [ err e ↦ some (err e, c, out') | ok _ ↦ some (ok header_length, c, out') ]

  -- `send_data` behind the choice of the type
  unfoldable pub send_packet : Octets → PacketType → Connection f → List ℕ → ℕ → Sent
  unfolding send_application send_request send_acknowledgement send_handshake send_stop finish
  send_packet o handshake c out now = send_handshake o c out now
  send_packet o ack c out now = send_acknowledgement o c out now
  send_packet o elict_ack c out now = send_request o c out
  send_packet o application c out now = send_application o c out now
  send_packet o stop c out now = send_stop o c out
  send_packet o _ c out now = finish c 0 out now

  unfoldable pub send_data : Octets → Connection f → List ℕ → ℕ → Sent
  unfolding write_pkt_type send_packet
  send_data o c out now =
      if is_nil out
      then some (err buffer_too_short, c, out)
      else (let (ty, c1) = write_pkt_type f c in
          elim ty [ err e ↦ some (err e, c1, out) | ok t ↦ send_packet o t c1 out now ])
