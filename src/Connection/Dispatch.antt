-- ===== src/Connection/Dispatch.antt =====
-- The data packet that the sender's `send_data` makes of a chunk.
use dmludp.Prelude.{
  ℕ, ◌+◌, ◌-◌, ◌≤◌, ◌<◌, ◌≡◌, ◌≢◌, refl, ap, true, false, ◌||◌, ◌&&◌, leb, Bool, List, [], ◌∷◌,
  ◌++◌, length, drop, take, some, none, arith, u64_mod, length-drop, length-take,
  drop-append_of_length, slice_from-some, add64-some, length-append,
}
use dmludp.Prelude.Maps.{lookup, hash_insert}
use dmludp.Error.{ok}
use dmludp.Floats.{Floats}
use dmludp.Octets.{Octets, OctetsLaws}
use dmludp.Packet.{Header, application}
use dmludp.Packet.RoundTrip.{IsHeader, encoded, encoded-append, to_bytes_fits}
use dmludp.RangeBuf.{RangeBuf}
use dmludp.SendBuf.Window.{IsChunk}
use dmludp.SendBuf.Emit.{stops, sent_chunk, emit_lem}
use dmludp.Connection.{Connection, write_pkt_type, priority_calculation, is_stopped}
use dmludp.Connection.Wire.{put_header}
use dmludp.Connection.Send.{
  send_data, send_packet, send_application, send_emitted, send_chunk, count_chunk, count_sent,
  end_chunk, finish,
}
use dmludp.Connection.Exchange.{not_nil}

module _ (f : Floats) where
  -- The sender is about to send the chunk `b`, with the priority `p`: it owes nothing else, the chunk
  -- is the one at `pos` and lies in what was written, and it may still be sent.
  pub record IsReady (c : Connection f) (b : RangeBuf) (p : ℕ) : Type 0 where
    pub chosen : write_pkt_type f c ≡ (ok application, c)
    pub rest : List RangeBuf
    pub next : drop c.send_buffer.pos c.send_buffer.chunks ≡ b ∷ rest
    pub chunk : IsChunk b
    pub bytes_left : b.len ≤ c.send_buffer.len
    pub bytes_used : b.len ≤ c.send_buffer.used_length
    pub written : b.off < c.written_data
    pub has_priority : priority_calculation f c b.off ≡ some p
    pub may_retry : lookup b.off c.sent_dic ≢ some 0
    pub not_stopped : c.stop_ack ≡ false

  -- The counters stay below 2 ^ 64.
  pub record HasRoom (c : Connection f) (b : RangeBuf) : Type 0 where
    pub end_u64 : b.off + b.len < u64_mod
    pub pos_u64 : c.send_buffer.pos + 1 < u64_mod
    pub sent_u64 : c.send_buffer.sent + b.len < u64_mod
    pub sent_count_u64 : c.sent_count + 1 < u64_mod
    pub sent_number_u64 : c.sent_number + 1 < u64_mod
    pub pkt_num_u64 : c.data_space.next_pkt_num + 1 < u64_mod

  -- what is left of the times that a chunk may be sent
  abbrev pub left : List (ℕ × ℕ) → ℕ → ℕ → ℕ
  left dic off p = elim (lookup off dic) [ some x ↦ x - 1 | none ↦ p ]

  -- the sender behind the packet
  abbrev pub behind : Connection f → RangeBuf → ℕ → ℕ → Connection f
  behind c b p now =
      let s = c.data_space in
      record c {
        send_buffer = sent_chunk c.send_buffer b (stops c.send_buffer b);
        sent_count = c.sent_count + 1;
        sent_number = c.sent_number + 1;
        data_space = record s { next_pkt_num = s.next_pkt_num + 1 };
        sent_dic = hash_insert b.off (left c.sent_dic b.off p) c.sent_dic;
        stop_flag = c.stop_flag || stops c.send_buffer b;
        sent_pkt = c.sent_pkt ++ (b.off ∷ []);
        handshake_time = now;
      }

  abbrev pub data_header : Connection f → RangeBuf → ℕ → Header
  data_header c b p = record {
    ty = application;
    pkt_num = c.data_space.next_pkt_num;
    priority = p;
    offset = b.off;
    pkt_length = b.len;
  }

  count_sent_lem :
      (dic : List (ℕ × ℕ)) (off p : ℕ)
      → lookup off dic ≢ some 0
      → count_sent f dic off p ≡ some (hash_insert off (left dic off p) dic)
  unfolding count_sent
  count_sent_lem dic off p h = ground (arith, h)

  pub priority_small :
      (c : Connection f) (off p : ℕ) → priority_calculation f c off ≡ some p → p < 256
  unfolding priority_calculation
  priority_small c off p e = ground (arith, e)

pub and_false : (b : Bool) → (b && false) ≡ false
and_false true = refl
and_false false = refl

not_below : (m n : ℕ) → m < n → leb n m ≡ false
not_below m n h = ground (arith, h)

module _ (o : Octets) (laws : OctetsLaws o) where
  pub put_header_fits :
      (h : Header) (out : List ℕ)
      → IsHeader h
      → 26 ≤ length out
      → put_header o h out ≡ (ok tt, encoded h (drop 26 out))
  unfolding put_header
  put_header_fits h out v fits =
      let (e0, a0) = laws.with_slice_lem out in
      let (b, e, w, a) = to_bytes_fits o laws h (o.with_slice out) v (rw a0 fits) in
      rw (e, w, a, e0, a0) (ap (λ xs. (ok tt, xs)) (encoded-append h (drop 26 out)))

module _ (f : Floats) (o : Octets) (laws : OctetsLaws o) where
  -- the header of the packet is one that can be written
  pub data_header-IsHeader :
      (c : Connection f) (b : RangeBuf) (p : ℕ)
      → IsReady f c b p
      → HasRoom f c b
      → IsHeader (data_header f c b p)
  data_header-IsHeader c b p r room = record {
    pkt_num_u64 = omega (arith, room.pkt_num_u64);
    priority_u8 = priority_small f c b.off p r.has_priority;
    offset_u64 = omega (arith, room.end_u64);
    pkt_length_u64 = omega (arith, room.end_u64);
  }

  -- `count_chunk` does not look at the buffer
  count_chunk_lem :
      (c : Connection f) (b : RangeBuf) (p : ℕ)
      → IsReady f c b p
      → HasRoom f c b
      → count_chunk f
          (record c { send_buffer = sent_chunk c.send_buffer b (stops c.send_buffer b) })
          b.off
        ≡ some (
          p,
          record (behind f c b p 0) {
            stop_flag = c.stop_flag;
            sent_pkt = c.sent_pkt;
            handshake_time = c.handshake_time;
          },
        )
  unfolding count_chunk priority_calculation
  count_chunk_lem c b p r room = rw (
    add64-some c.sent_count 1 room.sent_count_u64,
    add64-some c.sent_number 1 room.sent_number_u64,
    r.has_priority,
    add64-some c.data_space.next_pkt_num 1 room.pkt_num_u64,
    count_sent_lem f c.sent_dic b.off p r.may_retry,
  )

  send_chunk_lem :
      (c : Connection f) (b : RangeBuf) (p : ℕ) (out : List ℕ) (now : ℕ)
      → IsReady f c b p
      → HasRoom f c b
      → 26 ≤ length out
      → send_chunk f o
          (record c { send_buffer = sent_chunk c.send_buffer b (stops c.send_buffer b) })
          b.len
          b.off
          (stops c.send_buffer b)
          out
          now
        ≡ some (ok (26 + b.len), behind f c b p now, encoded (data_header f c b p) (drop 26 out))
  unfolding send_chunk end_chunk finish is_stopped
  send_chunk_lem c b p out now r room fits = rw (
    count_chunk_lem c b p r room,
    put_header_fits o laws (data_header f c b p) out (data_header-IsHeader c b p r room) fits,
    r.not_stopped,
    and_false (c.stop_flag || stops c.send_buffer b),
    add64-some 26 b.len (omega (arith, r.chunk.not_large)),
  )

  send_application_lem :
      (c : Connection f) (b : RangeBuf) (p : ℕ) (out : List ℕ) (now : ℕ)
      → IsReady f c b p
      → HasRoom f c b
      → 1050 ≤ length out
      → send_application f o c out now
        ≡ some (
          ok (26 + b.len),
          behind f c b p now,
          encoded (data_header f c b p) (b.bytes ++ drop (length b.bytes) (drop 26 out)),
        )
  unfolding send_application send_emitted
  send_application_lem c b p out now r room fits = rw (
    slice_from-some out 26 (omega (arith, fits)),
    emit_lem c.send_buffer b r.rest (drop 26 out) r.chunk r.next (omega (arith, room.end_u64))
        r.bytes_left r.bytes_used (omega (arith, fits, length-drop 26 out)) room.pos_u64
        room.sent_u64,
    not_below b.off c.written_data r.written,
    send_chunk_lem c b p (take 26 out ++ (b.bytes ++ drop (length b.bytes) (drop 26 out))) now r
        room
        (omega (
          arith,
          head_length,
          length-append (take 26 out) (b.bytes ++ drop (length b.bytes) (drop 26 out)),
        )),
    drop-append_of_length 26 (take 26 out) (b.bytes ++ drop (length b.bytes) (drop 26 out))
        head_length,
  )
    where
      head_length : length (take 26 out) ≡ 26
      head_length = omega (arith, length-take 26 out, fits)

  -- the sender's half
  pub send_data_chunk :
      (c : Connection f) (b : RangeBuf) (p : ℕ) (out : List ℕ) (now : ℕ)
      → IsReady f c b p
      → HasRoom f c b
      → 1050 ≤ length out
      → send_data f o c out now
        ≡ some (
          ok (26 + b.len),
          behind f c b p now,
          encoded (data_header f c b p) (b.bytes ++ drop (length b.bytes) (drop 26 out)),
        )
  unfolding send_data send_packet
  send_data_chunk c b p out now r room fits =
      rw (not_nil f o laws out (omega (arith, fits)), r.chosen, r.chosen)
        (send_application_lem c b p out now r room fits)
