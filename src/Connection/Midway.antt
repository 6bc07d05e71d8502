-- ===== src/Connection/Midway.antt =====
-- A sender of src/lib.rs in the middle of a round: `send_data` takes its next chunk.
use dmludp.Prelude.{
  ℕ, ◌+◌, ◌*◌, ◌%◌, ◌≤◌, ◌<◌, ◌≡◌, ◌≢◌, refl, sym, ap, ◌∙◌, Bool, true, false, ◌==◌, ltb, ◌&&◌,
  List, [], ◌∷◌, length, drop, drop-drop, some, arith, u64_mod, if-false,
}
use dmludp.Prelude.Maps.{lookup, lookup-hash_insert}
use dmludp.Error.{ok}
use dmludp.Floats.{Floats}
use dmludp.Packet.{application}
use dmludp.RangeBuf.{RangeBuf}
use dmludp.SendBuf.{total}
use dmludp.SendBuf.Window.{IsChunk, Laid}
use dmludp.SendBuf.Emit.{stops}
use dmludp.Connection.{Connection, write_pkt_type}
use dmludp.Connection.Verdicts.{known_priority}
use dmludp.Connection.Dispatch.{IsReady, HasRoom, behind}

-- From `lo` on, the chunks lie in ascending order without overlap and end at `hi` or before.
abbrev pub Ordered : ℕ → List RangeBuf → ℕ → Type 0
Ordered lo [] hi = lo ≤ hi
Ordered lo (b ∷ bs) hi = IsChunk b × (lo ≤ b.off) × Ordered (b.off + b.len) bs hi

pub Ordered-bounds : (lo : ℕ) (bs : List RangeBuf) (hi : ℕ) → Ordered lo bs hi → lo ≤ hi
Ordered-bounds lo [] hi l = l
Ordered-bounds lo (b ∷ bs) hi (c, h, l) = omega (arith, Ordered-bounds (b.off + b.len) bs hi l)

pub Laid-Ordered :
    (lo : ℕ) (bs : List RangeBuf) (m : List (ℕ × Bool)) (hi : ℕ)
    → Laid lo bs m hi
    → Ordered lo bs hi
Laid-Ordered lo [] [] hi l = l
Laid-Ordered lo (b ∷ bs) ((k, v) ∷ m) hi (c, e, p, l) =
    (c, p, Laid-Ordered (b.off + b.len) bs m hi l)
Laid-Ordered lo [] (g ∷ m) hi l = absurd l
Laid-Ordered lo (b ∷ bs) [] hi l = absurd l

module _ (f : Floats) where
  -- A sender in the middle of a round, which has the chunks `bs`, from the offset `lo` on, to send yet.
  pub record IsMidway (c : Connection f) (bs : List RangeBuf) (lo : ℕ) : Type 0 where
    pub next : drop c.send_buffer.pos c.send_buffer.chunks ≡ bs
    pub count : c.send_buffer.pos + length bs ≡ length c.send_buffer.chunks
    pub ordered : Ordered lo bs c.written_data
    pub few : c.sent_count + length bs ≤ 8
    pub has_rtt : (c.rtt == 0) ≡ false
    pub confirmed : c.handshake_confirmed ≡ true
    pub no_report : c.recv_flag ≡ false
    pub going : c.stop_flag ≡ false
    pub not_stopped : c.stop_ack ≡ false
    pub len_exact : c.send_buffer.len ≡ total bs
    pub used_exact : c.send_buffer.used_length ≡ total bs
    pub fits : c.send_buffer.sent + total bs ≤ c.send_buffer.max_data
    pub norms : c.written_data ≤ 1024 * length c.norm2_vec
    pub may_retry : (off : ℕ) → lo ≤ off → lookup off c.sent_dic ≢ some 0
    pub written_u64 : c.written_data < u64_mod
    pub max_u64 : c.send_buffer.max_data < u64_mod
    pub chunks_u64 : length c.send_buffer.chunks < u64_mod
    pub number_u64 : c.sent_number + length bs < u64_mod
    pub pkt_u64 : c.data_space.next_pkt_num + length bs < u64_mod

  chooses_data :
      (c : Connection f) (b : RangeBuf) (bs : List RangeBuf) (lo : ℕ)
      → IsMidway c (b ∷ bs) lo
      → write_pkt_type f c ≡ (ok application, c)
  unfolding write_pkt_type
  chooses_data c b bs lo v =
      rw (v.has_rtt, v.confirmed, not_yet c.sent_count (omega (arith, v.few)), v.going, v.no_report)
        refl
    where
      not_yet : (n : ℕ) → n < 8 → (n % 8 == 0 && ltb 0 n) ≡ false
      not_yet n h = ground arith

  pub midway-IsReady :
      (c : Connection f) (b : RangeBuf) (bs : List RangeBuf) (lo : ℕ)
      → IsMidway c (b ∷ bs) lo
      → (p : ℕ) × IsReady f c b p × HasRoom f c b
  midway-IsReady c b bs lo v =
      let (chunk, above, later) = v.ordered in
      let below : b.off + b.len ≤ c.written_data =
        Ordered-bounds (b.off + b.len) bs c.written_data later in
      let (p, _, _, e) =
        known_priority f c b.off (omega (arith, below, v.norms, chunk.not_empty)) in
      (
        p,
        record {
          chosen = chooses_data c b bs lo v;
          rest = bs;
          next = v.next;
          chunk = chunk;
          bytes_left = omega (arith, v.len_exact);
          bytes_used = omega (arith, v.used_exact);
          written = omega (arith, below, chunk.not_empty);
          has_priority = e;
          may_retry = v.may_retry b.off above;
          not_stopped = v.not_stopped;
        },
        record {
          end_u64 = omega (arith, below, v.written_u64);
          pos_u64 = omega (arith, v.count, v.chunks_u64);
          sent_u64 = omega (arith, v.fits, v.max_u64);
          sent_count_u64 = omega (arith, v.few);
          sent_number_u64 = omega (arith, v.number_u64);
          pkt_num_u64 = omega (arith, v.pkt_u64);
        },
      )

  -- More chunks follow, and there is room for them: the round goes on.
  goes_on :
      (c : Connection f) (b b' : RangeBuf) (bs : List RangeBuf) (lo : ℕ)
      → IsMidway c (b ∷ b' ∷ bs) lo
      → stops c.send_buffer b ≡ false
  goes_on c b b' bs lo v =
      let (_, _, (chunk, _, _)) = v.ordered in ground (arith, v.count, v.fits, chunk.not_empty)

  pub behind-IsMidway :
      (c : Connection f) (b b' : RangeBuf) (bs : List RangeBuf) (lo p now : ℕ)
      → IsMidway c (b ∷ b' ∷ bs) lo
      → IsMidway (behind f c b p now) (b' ∷ bs) (b.off + b.len)
  behind-IsMidway c b b' bs lo p now v =
      let on = goes_on c b b' bs lo v in
      let (chunk, above, later) = v.ordered in
      record {
        next =
            rw on (sym (drop-drop 1 c.send_buffer.pos c.send_buffer.chunks) ∙ ap (drop 1) v.next);
        count = rw on (omega (arith, v.count));
        ordered = later;
        few = omega (arith, v.few);
        has_rtt = v.has_rtt;
        confirmed = v.confirmed;
        no_report = v.no_report;
        going = rw (on, v.going);
        not_stopped = v.not_stopped;
        len_exact = omega (arith, v.len_exact);
        used_exact = omega (arith, v.used_exact);
        fits = omega (arith, v.fits);
        norms = v.norms;
        may_retry = λ off h e. v.may_retry off (omega (arith, h, above)) (
            sym (if-false _ _ _ (other off h))
            ∙ sym (lookup-hash_insert b.off off _ c.sent_dic)
            ∙ e);
        written_u64 = v.written_u64;
        max_u64 = v.max_u64;
        chunks_u64 = v.chunks_u64;
        number_u64 = omega (arith, v.number_u64);
        pkt_u64 = omega (arith, v.pkt_u64);
      }
    where
      other : (off : ℕ) → b.off + b.len ≤ off → (b.off == off) ≡ false
      other off h = let (chunk, _, _) = v.ordered in ground (arith, h, chunk.not_empty)
