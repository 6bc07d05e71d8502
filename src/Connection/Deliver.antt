-- ===== src/Connection/Deliver.antt =====
-- A data packet from the sender's `send_data` to the receiver's `recv_slice`.
use dmludp.Prelude.{
  ℕ, ◌+◌, ◌≤◌, ◌<◌, ◌≡◌, ◌≢◌, refl, ap, ◌∙◌, false, ◌==◌, if◌then◌else◌, List, [], ◌∷◌, ◌++◌,
  length, drop, take, some, arith, u64_mod, add64-some,
}
use dmludp.Prelude.Maps.{lookup, hash_insert, lookup-hash_insert}
use dmludp.Error.{ok}
use dmludp.Floats.{Floats}
use dmludp.Octets.{Octets, OctetsLaws}
use dmludp.Packet.{Header, application}
use dmludp.Packet.RoundTrip.{
  slice_from-encoded, IsHeader, encoded, length-encoded, from_slice-encoded,
}
use dmludp.RangeBuf.{RangeBuf, from as range_from}
use dmludp.SendBuf.Emit.{stops, sent_chunk}
use dmludp.RecvBuf.Insert.{received, write_lem}
use dmludp.Connection.{Connection}
use dmludp.Connection.Send.{send_data}
use dmludp.Connection.Receive.{recv_slice, recv_packet, recv_application}
use dmludp.Connection.Exchange.{take-encoded}
use dmludp.Connection.Dispatch.{
  IsReady, HasRoom, behind, data_header, data_header-IsHeader, send_data_chunk,
}

-- the receiver behind the packet
abbrev pub delivered : (f : Floats) → Connection f → RangeBuf → ℕ → Connection f
delivered f r b p = record r {
  recv_count = r.recv_count + 1 + 1;
  rec_buffer = received r.rec_buffer b.bytes b.off;
  recv_dic = hash_insert b.off p r.recv_dic;
}

module _ (f : Floats) (o : Octets) (laws : OctetsLaws o) where
  -- the receiver's half
  pub recv_slice_chunk :
      (r : Connection f) (h : Header) (b : RangeBuf) (now : ℕ)
      → IsHeader h
      → h.ty ≡ application
      → h.offset ≡ b.off
      → r.recv_count + 2 < u64_mod
      → b.off + length b.bytes < u64_mod
      → recv_slice f o r (encoded h b.bytes) now
        ≡ some (ok h.pkt_length, delivered f r b h.priority)
  unfolding recv_slice recv_packet recv_application
  recv_slice_chunk r h b now v is_data at counted fits = rw (
    length-encoded,
    not_empty (length b.bytes),
    add64-some r.recv_count 1 (omega (arith, counted)),
    from_slice-encoded o laws h b.bytes v,
    is_data,
    add64-some (r.recv_count + 1) 1 (omega (arith, counted)),
    slice_from-encoded h b.bytes,
    at,
    (write_lem b.bytes b.off fits r.rec_buffer).0,
    at,
  )
    where
      not_empty : (n : ℕ) → (26 + n == 0) ≡ false
      not_empty n = ground arith

  ends :
      (c : Connection f) (b : RangeBuf) (p : ℕ)
      → IsReady f c b p
      → HasRoom f c b
      → b.off + length b.bytes < u64_mod
  ends c b p ready room = omega (arith, room.end_u64, ready.chunk.whole)

  -- the receiver's half, on the buffer that the sender's half leaves
  pub recv_slice_behind :
      (c r : Connection f) (b : RangeBuf) (p : ℕ) (tail : List ℕ) (later : ℕ)
      → IsReady f c b p
      → HasRoom f c b
      → r.recv_count + 2 < u64_mod
      → recv_slice f o r (take (26 + b.len) (encoded (data_header f c b p) (b.bytes ++ tail))) later
        ≡ some (ok b.len, delivered f r b p)
  recv_slice_behind c r b p tail later ready room counted =
      ap (λ xs. recv_slice f o r xs later) packet
      ∙ recv_slice_chunk r (data_header f c b p) b later
          (data_header-IsHeader f o laws c b p ready room) refl refl counted (ends c b p ready room)
    where
      packet :
          take (26 + b.len) (encoded (data_header f c b p) (b.bytes ++ tail))
          ≡ encoded (data_header f c b p) b.bytes
      packet =
          ap (λ n. take (26 + n) (encoded (data_header f c b p) (b.bytes ++ tail)))
            ready.chunk.whole
          ∙ take-encoded (data_header f c b p) b.bytes tail

  -- A data packet is delivered. A sender that is about to send a chunk makes a packet of 26 bytes and
  -- those of the chunk, notes its offset as sent, and goes on to its next chunk. A receiver that is
  -- given this packet accepts it, with its length, and then holds the bytes of the chunk under the
  -- offset of its end, and its priority under its offset; what it held under other offsets stays.
  -- (Conditions: the counters stay below 2 ^ 64, and the buffer has room for 1050 bytes.)
  pub packet_is_delivered :
      (c r : Connection f) (b : RangeBuf) (p : ℕ) (out : List ℕ) (now later : ℕ)
      → IsReady f c b p
      → HasRoom f c b
      → 1050 ≤ length out
      → r.recv_count + 2 < u64_mod
      → (c' r' : Connection f) × (out' : List ℕ) × (send_data f o c out now
          ≡ some (ok (26 + b.len), c', out'))
        × (c'.sent_pkt ≡ c.sent_pkt ++ (b.off ∷ []))
        × (c'.send_buffer ≡ sent_chunk c.send_buffer b (stops c.send_buffer b))
        × (recv_slice f o r (take (26 + b.len) out') later ≡ some (ok b.len, r'))
        × (lookup (b.off + length b.bytes) r'.rec_buffer.chunks ≡ some (range_from b.bytes b.off))
        × ((k : ℕ)
            → b.off + length b.bytes ≢ k
            → lookup k r'.rec_buffer.chunks ≡ lookup k r.rec_buffer.chunks)
        × ((k : ℕ) → lookup k r'.recv_dic ≡ (if b.off == k then some p else lookup k r.recv_dic))
  packet_is_delivered c r b p out now later ready room fits counted = (
    behind f c b p now,
    delivered f r b p,
    encoded (data_header f c b p) (b.bytes ++ drop (length b.bytes) (drop 26 out)),
    send_data_chunk f o laws c b p out now ready room fits,
    refl,
    refl,
    recv_slice_behind c r b p (drop (length b.bytes) (drop 26 out)) later ready room counted,
    (write_lem b.bytes b.off (ends c b p ready room) r.rec_buffer).1,
    (write_lem b.bytes b.off (ends c b p ready room) r.rec_buffer).2,
    λ k. lookup-hash_insert b.off k p r.recv_dic,
  )
