-- ===== src/Connection/Stream/Data.antt =====
-- The data packets of `Connection::send_data` of src/lib.rs.
use dmludp.Prelude.{
  ℕ, le→leb, ◌+◌, ◌≤◌, ◌<◌, ◌≡◌, refl, sym, ap, ◌∙◌, subst, Bool, true, ◌||◌, List, [], ◌∷◌, ◌++◌,
  length, take, drop, some, arith, u64_mod, inl, inr, bind-some, add64, slice_from, leb, Bool-cases,
  if-false, if-true, length-append, length-drop, length-take, drop-append_of_length,
  slice_from-some,
}
use mathlib.Core.Option.{some-injective}
use dmludp.Error.{Result, err, done}
use dmludp.Floats.{Floats}
use dmludp.Octets.{Octets, OctetsLaws}
use dmludp.Packet.{Header, application}
use dmludp.Packet.RoundTrip.{IsHeader, encoded}
use dmludp.RangeBuf.{RangeBuf}
use dmludp.SendBuf.{SendBuf, emit}
use dmludp.SendBuf.Window.{IsChunk, Entry, window}
use dmludp.SendBuf.Emitted.{Kept, Emits, IsOneOf, emit-Emits}
use dmludp.Connection.{Connection, priority_calculation}
use dmludp.Connection.Dispatch.{put_header_fits, priority_small}
use dmludp.Connection.Exchange.{take-encoded}
use dmludp.Connection.Request.{AllU64}
use dmludp.Connection.Send.{
  send_application, send_emitted, send_chunk, end_chunk, count_chunk, count_sent, header_length,
  Sent,
}
use dmludp.Connection.Slices.{IsSlice, AllSlices}
use dmludp.Connection.Stream.{Goes, Goes-trans, Unchanged, Goes-same, IsStream}
use dmludp.Connection.Stream.Control.{Makes, finish-Goes}

module _ (f : Floats) (o : Octets) (laws : OctetsLaws o) where
  AllU64-append : (xs ys : List ℕ) → AllU64 xs → AllU64 ys → AllU64 (xs ++ ys)
  AllU64-append [] ys u w = w
  AllU64-append (x ∷ xs) ys (h, u) w = (h, AllU64-append xs ys u w)

  one_of :
      (d : List ℕ) (b : RangeBuf) (es : List Entry)
      → IsOneOf b es
      → AllSlices d es
      → IsSlice d b.off b.bytes
  one_of d b [] one a = absurd one
  one_of d b (e ∷ es) (inl (at, content)) (h, a) =
      subst (IsSlice d b.off) content (subst (λ n. IsSlice d n e.content) at h)
  one_of d b (e ∷ es) (inr one) (h, a) = one_of d b es one a

  count_chunk-fields :
      (c c1 : Connection f) (off p : ℕ)
      → count_chunk f c off ≡ some (p, c1)
      → (p < 256) × (c.data_space.next_pkt_num < u64_mod) × Unchanged f c c1
  unfolding count_chunk
  count_chunk-fields c c1 off p e =
      let (sent_count, _, e1) = bind-some (add64 c.sent_count 1) _ _ e in
      let (sent_number, _, e2) = bind-some (add64 c.sent_number 1) _ _ e1 in
      let (priority, found, e3) = bind-some (priority_calculation f c off) _ _ e2 in
      let (next, counted, e4) = bind-some (add64 c.data_space.next_pkt_num 1) _ _ e3 in
      let (dic, _, e5) = bind-some (count_sent f c.sent_dic off priority) _ _ e4 in
      let same : priority ≡ p = cc in
      let state : record c {
        sent_count = sent_count;
        sent_number = sent_number;
        data_space = record (c.data_space) { next_pkt_num = next };
        sent_dic = dic;
      }
          ≡ c1 =
        cc in
      (
        subst (λ n. n < 256) same (priority_small f c off priority found),
        ground (arith, counted),
        subst (Unchanged f c) state (refl, refl, refl, refl, refl, refl),
      )

  abbrev data_header_of : Connection f → RangeBuf → ℕ → Header
  data_header_of c b p = record {
    ty = application;
    pkt_num = c.data_space.next_pkt_num;
    priority = p;
    offset = b.off;
    pkt_length = b.len;
  }

  abbrev noted : Connection f → RangeBuf → Bool → Connection f
  noted c b stopped = record c {
    stop_flag = c.stop_flag || stopped;
    sent_pkt = c.sent_pkt ++ (b.off ∷ []);
  }

  noted-Goes :
      (c : Connection f) (b : RangeBuf) (stopped : Bool)
      → b.off < u64_mod
      → Goes f c (noted c b stopped)
  noted-Goes c b stopped h = record {
    same_data = refl;
    same_written = refl;
    same_total = refl;
    silent = refl;
    kept = record { same_chunks = refl; same_flags = refl; same_off = refl; same_error = refl };
    offsets = λ u. AllU64-append c.sent_pkt (b.off ∷ []) u (h, tt);
  }

  -- a chunk of the stream behind `emit`
  send_chunk-Makes :
      (d : List ℕ) (c c' : Connection f) (b : RangeBuf) (stopped : Bool) (out tail out' : List ℕ)
      (r : Result ℕ) (now : ℕ)
      → 26 ≤ length out
      → drop 26 out ≡ b.bytes ++ tail
      → IsChunk b
      → b.off < u64_mod
      → IsSlice d b.off b.bytes
      → send_chunk f o c b.len b.off stopped out now ≡ some (r, c', out')
      → Goes f c c' × Makes f o laws d r out'
  unfolding send_chunk end_chunk
  send_chunk-Makes d c c' b stopped out tail out' r now fits filled whole off_u64 slice e =
      let ((p, c1), counted, e1) = bind-some (count_chunk f c b.off) _ _ e in
      let (small, num, same) = count_chunk-fields c c1 b.off p counted in
      let hdr : Header = data_header_of c b p in
      let fields : IsHeader hdr = record {
        pkt_num_u64 = num;
        priority_u8 = small;
        offset_u64 = off_u64;
        pkt_length_u64 = omega (arith, whole.not_large);
      } in
      let run =
        sym (
          ap (λ q. end_chunk f q c1 b.len b.off stopped now)
            (put_header_fits o laws hdr out fields fits))
        ∙ e1 in
      let (g, packet, size) =
        finish-Goes f o laws (noted c1 b stopped) c' b.len now (encoded hdr (drop 26 out)) out' r
          run in
      (
        Goes-trans f c (noted c1 b stopped) c'
            (Goes-trans f c c1 (noted c1 b stopped) (Goes-same f c c1 same)
              (noted-Goes c1 b stopped off_u64))
            g,
        λ n q. record {
          header = hdr;
          payload = b.bytes;
          fields = fields;
          laid_out =
              rw (size n q, packet, filled)
                (ap (λ k. take (26 + k) (encoded hdr (b.bytes ++ tail))) whole.whole
                  ∙ take-encoded hdr b.bytes tail);
          kind = inr (refl, slice);
        },
      )

  abbrev buffered : Connection f → SendBuf → Connection f
  buffered c s = record c { send_buffer = s }

  buffered-Goes : (c : Connection f) (s : SendBuf) → Kept c.send_buffer s → Goes f c (buffered c s)
  buffered-Goes c s k = record {
    same_data = refl;
    same_written = refl;
    same_total = refl;
    silent = refl;
    kept = k;
    offsets = λ u. u;
  }

  -- nothing new to send
  nothing :
      (d : List ℕ) (c c' : Connection f) (s : SendBuf) (out out' : List ℕ) (r : Result ℕ)
      → Kept c.send_buffer s
      → ◌≡◌ {A = Sent f} (some (err done, buffered c s, out)) (some (r, c', out'))
      → Goes f c c' × Makes f o laws d r out'
  nothing d c c' s out out' r k e =
      let state : buffered c s ≡ c' = cc in
      let failed : r ≡ err done = cc in (subst (Goes f c) state (buffered-Goes c s k), λ n q. cc)

  send_emitted-Makes :
      (d : List ℕ) (c c' : Connection f) (s : SendBuf) (res : Result (ℕ × ℕ × Bool))
      (payload filled out out' : List ℕ) (r : Result ℕ) (now : ℕ)
      → 26 ≤ length out
      → drop 26 out ≡ filled
      → IsStream f d c
      → Kept c.send_buffer s
      → Emits c.send_buffer payload res filled
      → send_emitted f o res (record c { send_buffer = s }) out now ≡ some (r, c', out')
      → Goes f c c' × Makes f o laws d r out'
  unfolding send_emitted
  send_emitted-Makes d c c' s res payload filled out out' r now fits same v k (inl (n, stopped, q))
        e =
      let reached : leb c.written_data c.send_buffer.off ≡ true =
        le→leb _ _ (omega (arith, v.sender.aligned, v.sender.counted)) in
      let run =
        sym (ap (λ x. send_emitted f o x (buffered c s) out now) q ∙ if-true _ _ _ reached) ∙ e in
      nothing d c c' s out out' r k run
  send_emitted-Makes d c c' s res payload filled out out' r now fits same v k
        (inr (b, stopped, q, whole, below, one, written)) e =
      let run = sym (ap (λ x. send_emitted f o x (buffered c s) out now) q) ∙ e in
      elim (Bool-cases (leb c.written_data b.off)) [
        | inl late ↦ nothing d c c' s out out' r k (sym (if-true _ _ _ late) ∙ run)
        | inr new ↦
            let (g, m) =
              send_chunk-Makes d (buffered c s) c' b stopped out (drop (length b.bytes) payload)
                out' r now fits (same ∙ written) whole
                (omega (arith, below, whole.not_empty, v.sender.valid.off_u64))
                (one_of d b (window c.send_buffer) one v.slices) (sym (if-false _ _ _ new) ∙ run) in
            (Goes-trans f c (buffered c s) c' (buffered-Goes c s k) g, m)
      ]

  pub send_application-Makes :
      (d : List ℕ) (c c' : Connection f) (out out' : List ℕ) (r : Result ℕ) (now : ℕ)
      → 1050 ≤ length out
      → IsStream f d c
      → send_application f o c out now ≡ some (r, c', out')
      → Goes f c c' × Makes f o laws d r out'
  unfolding send_application
  send_application-Makes d c c' out out' r now fits v e =
      let (payload, cut, e1) = bind-some (slice_from out header_length) _ _ e in
      let ((res, s, filled), emitted, e2) = bind-some (emit c.send_buffer payload) _ _ e1 in
      let behind : drop 26 out ≡ payload =
        some-injective _ _ (sym (slice_from-some out 26 (omega (arith, fits))) ∙ cut) in
      let (k, emits) =
        emit-Emits c.send_buffer s payload filled res v.sender.valid
          (omega (arith, fits, length-drop 26 out, ap length behind)) emitted in
      send_emitted-Makes d c c' s res payload filled (take 26 out ++ filled) out' r now
        (omega (arith, head_length, length-append (take 26 out) filled))
        (drop-append_of_length 26 (take 26 out) filled head_length) v k emits e2
    where
      head_length : length (take 26 out) ≡ 26
      head_length = omega (arith, length-take 26 out, fits)
