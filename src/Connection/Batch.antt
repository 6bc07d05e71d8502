-- ===== src/Connection/Batch.antt =====
-- A whole window from a sender's `send_data` to a receiver's `recv_slice`, of src/lib.rs.
use dmludp.Prelude.{
  ℕ, zero, suc, ◌+◌, ◌*◌, ◌≤◌, ◌<◌, ◌≡◌, ◌≢◌, refl, sym, ap, ◌∙◌, subst, Bool, true, false, ◌==◌,
  List, [], ◌∷◌, length, take, drop, Option, some, none, ◌>>=◌, arith, u64_mod, ◌⊎◌, inl, inr,
}
use dmludp.Prelude.Maps.{lookup}
use dmludp.Error.{ok, err}
use dmludp.Floats.{Floats}
use dmludp.Octets.{Octets, OctetsLaws}
use dmludp.RangeBuf.{RangeBuf, from as range_from}
use dmludp.SendBuf.{total}
use dmludp.SendBuf.Window.{window}
use dmludp.SendBuf.Pieces.{load, load-view}
use dmludp.RecvBuf.Insert.{write_lem}
use dmludp.Connection.{Connection}
use dmludp.Connection.Send.{send_data}
use dmludp.Connection.Receive.{recv_slice}
use dmludp.Connection.Dispatch.{behind, send_data_chunk}
use dmludp.Connection.Sender.{IsSender}
use dmludp.Connection.Deliver.{delivered, recv_slice_behind}
use dmludp.Connection.Midway.{
  Ordered, Ordered-bounds, Laid-Ordered, IsMidway, midway-IsReady, behind-IsMidway,
}

-- the chunks stand in the map, each under the offset of its end
abbrev pub AllArrived : List RangeBuf → List (ℕ × RangeBuf) → Type 0
AllArrived [] m = Unit
AllArrived (b ∷ bs) m =
    (lookup (b.off + length b.bytes) m ≡ some (range_from b.bytes b.off)) × AllArrived bs m

module _ (f : Floats) where
  -- The sender owes no other packet, begins with its first chunk, knows the priority of all its
  -- bytes, and has sent nothing too often.
  pub record IsFresh (c : Connection f) : Type 0 where
    pub has_rtt : (c.rtt == 0) ≡ false
    pub confirmed : c.handshake_confirmed ≡ true
    pub none_sent : c.sent_count ≡ 0
    pub no_report : c.recv_flag ≡ false
    pub going : c.stop_flag ≡ false
    pub not_stopped : c.stop_ack ≡ false
    pub at_start : c.send_buffer.pos ≡ 0
    pub len_exact : c.send_buffer.len ≡ load (window c.send_buffer)
    pub used_exact : c.send_buffer.used_length ≡ load (window c.send_buffer)
    pub norms : length c.send_data ≤ 1024 * length c.norm2_vec
    pub may_retry : (off : ℕ) → lookup off c.sent_dic ≢ some 0

module _ (f : Floats) (o : Octets) (out : List ℕ) (now later : ℕ) where
  -- `n` times: the sender makes a packet, and the receiver is given it.
  unfoldable pub exchange : ℕ → Connection f → Connection f → Option (Connection f × Connection f)
  exchange zero s r = some (s, r)
  exchange (suc n) s r = do
    (res, s', packet) ← send_data f o s out now
    elim res [
      | err e ↦ none
      | ok size ↦ do (_, r') ← recv_slice f o r (take size packet) later; exchange n s' r'
    ]

module _ (f : Floats) (o : Octets) (laws : OctetsLaws o) (out : List ℕ) (long : 1050 ≤ length out)
    (now later : ℕ) where
  -- What is behind the chunks `bs`: the receiver has these, and what it had under lower offsets, and
  -- the sender is at the end of its round.
  pub record Delivers (bs : List RangeBuf) (lo : ℕ) (c r : Connection f) : Type 0 where
    pub sender_after : Connection f
    pub receiver_after : Connection f
    pub runs : exchange f o out now later (length bs) c r ≡ some (sender_after, receiver_after)
    pub arrived : AllArrived bs receiver_after.rec_buffer.chunks
    pub kept :
        (k : ℕ) → k ≤ lo → lookup k receiver_after.rec_buffer.chunks ≡ lookup k r.rec_buffer.chunks
    pub ended : (bs ≡ []) ⊎ (sender_after.stop_flag ≡ true)

  one_more :
      (c r : Connection f) (b : RangeBuf) (bs : List RangeBuf) (lo : ℕ)
      → IsMidway f c (b ∷ bs) lo
      → r.recv_count + 2 < u64_mod
      → (p : ℕ) × (exchange f o out now later (length (b ∷ bs)) c r
          ≡ exchange f o out now later (length bs) (behind f c b p now) (delivered f r b p))
  unfolding exchange
  one_more c r b bs lo v counted =
      let (p, ready, room) = midway-IsReady f c b bs lo v in
      (
        p,
        rw
            (
              send_data_chunk f o laws c b p out now ready room long,
              recv_slice_behind f o laws c r b p (drop (length b.bytes) (drop 26 out)) later ready
                  room counted,
            )
            refl,
      )

  stored :
      (r : Connection f) (b : RangeBuf) (p : ℕ)
      → b.off + length b.bytes < u64_mod
      → (lookup (b.off + length b.bytes) (delivered f r b p).rec_buffer.chunks
          ≡ some (range_from b.bytes b.off))
        × ((k : ℕ)
            → b.off + length b.bytes ≢ k
            → lookup k (delivered f r b p).rec_buffer.chunks ≡ lookup k r.rec_buffer.chunks)
  stored r b p h =
      ((write_lem b.bytes b.off h r.rec_buffer).1, (write_lem b.bytes b.off h r.rec_buffer).2)

  last_stops :
      (c : Connection f) (b : RangeBuf) (lo p : ℕ)
      → IsMidway f c (b ∷ []) lo
      → (behind f c b p now).stop_flag ≡ true
  last_stops c b lo p v = ground (arith, v.count)

  pub exchange-Delivers :
      (bs : List RangeBuf) (c r : Connection f) (lo : ℕ)
      → IsMidway f c bs lo
      → r.recv_count + 2 * length bs < u64_mod
      → Delivers bs lo c r
  unfolding exchange
  exchange-Delivers [] c r lo v counted = record {
    sender_after = c;
    receiver_after = r;
    runs = refl;
    arrived = tt;
    kept = λ k h. refl;
    ended = inl refl;
  }
  exchange-Delivers (b ∷ []) c r lo v counted =
      let (p, one) = one_more c r b [] lo v (omega (arith, counted)) in
      let (chunk, above, below) = v.ordered in
      let (here, others) = stored r b p (omega (arith, chunk.whole, below, v.written_u64)) in
      record {
        sender_after = behind f c b p now;
        receiver_after = delivered f r b p;
        runs = one;
        arrived = (here, tt);
        kept = λ k h.
            others k (λ e. absurd (omega (arith, h, above, e, chunk.whole, chunk.not_empty)));
        ended = inr (last_stops c b lo p v);
      }
  exchange-Delivers (b ∷ b' ∷ bs) c r lo v counted =
      let (p, one) = one_more c r b (b' ∷ bs) lo v (omega (arith, counted)) in
      let (chunk, above, following) = v.ordered in
      let (here, others) = stored r b p (
        omega (
          arith,
          chunk.whole,
          Ordered-bounds (b.off + b.len) (b' ∷ bs) c.written_data following,
          v.written_u64,
        )) in
      let d =
        exchange-Delivers (b' ∷ bs) (behind f c b p now) (delivered f r b p) (b.off + b.len)
          (behind-IsMidway f c b b' bs lo p now v) (omega (arith, counted)) in
      record {
        sender_after = d.sender_after;
        receiver_after = d.receiver_after;
        runs = one ∙ d.runs;
        arrived = (d.kept (b.off + length b.bytes) (omega (arith, chunk.whole)) ∙ here, d.arrived);
        kept = λ k h.
            d.kept k (omega (arith, h, above))
            ∙ others k (λ e. absurd (omega (arith, h, above, e, chunk.whole, chunk.not_empty)));
        ended = inr (stopped d.ended);
      }
    where
      stopped : {t : Bool} → ((b' ∷ bs) ≡ []) ⊎ (t ≡ true) → t ≡ true
      stopped (inl e) = cc
      stopped (inr e) = e

  -- A window of at most 8 packets of a sender that stands at the first of them.
  pub fresh_window-Delivers :
      (c r : Connection f)
      → IsSender f c
      → IsFresh f c
      → length c.send_buffer.chunks ≤ 8
      → c.send_buffer.sent ≡ 0
      → load (window c.send_buffer) ≤ c.send_buffer.max_data
      → c.send_buffer.max_data < u64_mod
      → c.sent_number + 8 < u64_mod
      → c.data_space.next_pkt_num + 8 < u64_mod
      → r.recv_count + 16 < u64_mod
      → Delivers c.send_buffer.chunks 0 c r
  fresh_window-Delivers c r v w few unsent fits m64 n64 p64 r64 =
      let loaded : total c.send_buffer.chunks ≡ load (window c.send_buffer) =
        load-view 0 c.send_buffer.chunks c.send_buffer.offset_recv c.send_buffer.off v.valid.laid in
      exchange-Delivers c.send_buffer.chunks c r 0
        (record {
          next = ap (λ n. drop n c.send_buffer.chunks) w.at_start;
          count = omega (arith, w.at_start);
          ordered = subst (Ordered 0 c.send_buffer.chunks) (v.aligned ∙ v.counted) (
              Laid-Ordered 0 c.send_buffer.chunks c.send_buffer.offset_recv c.send_buffer.off
                v.valid.laid);
          few = omega (arith, few, w.none_sent);
          has_rtt = w.has_rtt;
          confirmed = w.confirmed;
          no_report = w.no_report;
          going = w.going;
          not_stopped = w.not_stopped;
          len_exact = w.len_exact ∙ sym loaded;
          used_exact = w.used_exact ∙ sym loaded;
          fits = omega (arith, fits, loaded, unsent);
          norms = omega (arith, v.within, w.norms);
          may_retry = λ off h. w.may_retry off;
          written_u64 = omega (arith, v.within, v.data_u64);
          max_u64 = m64;
          chunks_u64 = omega (arith, few);
          number_u64 = omega (arith, few, n64);
          pkt_u64 = omega (arith, few, p64);
        })
        (omega (arith, few, r64))
