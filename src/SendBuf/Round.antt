-- ===== src/SendBuf/Round.antt =====
-- One round of the protocol on the sending side: `write` fills the window, and `emit` sends it.
use dmludp.Prelude.{
  ℕ, suc, ◌+◌, ◌-◌, ◌≤◌, ◌<◌, ◌≡◌, refl, ap, sym, ◌∙◌, Bool, false, min, List, [], ◌∷◌, ◌++◌,
  length, take, drop, arith, u64_mod, some, none, subst, length-take,
}
use dmludp.Error.{ok}
use dmludp.RangeBuf.{RangeBuf}
use dmludp.SendBuf.{SendBuf, total, write}
use dmludp.SendBuf.Window.{Laid, IsValid, window, view, drop_acked, Laid-bounds}
use dmludp.SendBuf.Pieces.{pieces, load, load-view, load-append, load-fresh, size-pieces}
use dmludp.SendBuf.Push.{fresh, size}
use dmludp.SendBuf.Write.{write_refines}
use dmludp.SendBuf.Drain.{drain, drain_rest, packets, chunk_packets, AllChunks}

Laid-AllChunks :
    (lo : ℕ) (bs : List RangeBuf) (m : List (ℕ × Bool)) (hi : ℕ)
    → Laid lo bs m hi
    → hi < u64_mod
    → AllChunks bs
Laid-AllChunks lo [] [] hi l h = tt
Laid-AllChunks lo (b ∷ bs) ((k, v) ∷ m) hi (c, e, p, l) h = (
  c,
  omega (arith, Laid-bounds (b.off + b.len) bs m hi l),
  Laid-AllChunks (b.off + b.len) bs m hi l h,
)
Laid-AllChunks lo [] (f ∷ m) hi l h = absurd l
Laid-AllChunks lo (b ∷ bs) [] hi l h = absurd l

-- The packets of the chunks are those of the window, and no more than its bytes.
packets-view :
    (lo : ℕ) (bs : List RangeBuf) (m : List (ℕ × Bool)) (hi : ℕ)
    → Laid lo bs m hi
    → (chunk_packets bs ≡ packets (view bs m))
      × (length (view bs m) ≡ length bs)
      × (length bs ≤ total bs)
unfolding chunk_packets
packets-view lo [] [] hi l = (refl, refl, omega arith)
packets-view lo (b ∷ []) ((k, v) ∷ []) hi (c, e, p, l) = (refl, refl, omega (arith, c))
packets-view lo (b ∷ b' ∷ bs) ((k, v) ∷ (k', v') ∷ m) hi (c, e, p, l) =
    let (same, len, few) = packets-view (b.off + b.len) (b' ∷ bs) ((k', v') ∷ m) hi l in
    (ap (λ ps. (b.bytes, b.off, false) ∷ ps) same, ap suc len, omega (arith, c, few))
packets-view lo [] (f ∷ m) hi l = absurd l
packets-view lo (b ∷ bs) [] hi l = absurd l
packets-view lo (b ∷ []) (f ∷ f' ∷ m) hi (c, e, p, l) = absurd l
packets-view lo (b ∷ b' ∷ bs) (f ∷ []) hi (c, e, p, l) = absurd l

-- A valid buffer that stands before its first packet: nothing of the window is counted as sent, the
-- counters are those of the packets, and the packets fill no more than the window of congestion.
pub record AtStart (s : SendBuf) : Type 0 where
  pub valid : IsValid s
  pub first : s.pos ≡ 0
  pub none_sent : s.sent ≡ 0
  pub len_exact : s.len ≡ load (window s)
  pub used_exact : s.used_length ≡ load (window s)
  pub fits : load (window s) ≤ s.max_data
  pub max_u64 : s.max_data < u64_mod

drain_from :
    (s : SendBuf) (b : RangeBuf) (bs : List RangeBuf) (out : List ℕ)
    → AtStart s
    → s.chunks ≡ b ∷ bs
    → 1024 ≤ length out
    → (s' : SendBuf) × (drain (length (window s)) s out ≡ some (packets (window s), s'))
      × (s'.pos ≡ 0)
      × (s'.len ≡ 0)
      × (window s' ≡ window s)
drain_from s b bs out a e h =
    let (s', run, p, l, same, flags) = drain_rest s b bs out (record {
      here = ap (λ n. drop n s.chunks) a.first ∙ e;
      all_chunks =
          subst AllChunks e
            (Laid-AllChunks 0 s.chunks s.offset_recv s.off a.valid.laid a.valid.off_u64);
      counted = a.len_exact ∙ sym loaded;
      used = a.used_exact ∙ sym loaded;
      fits = omega (arith, a.none_sent, a.fits, loaded);
      max_u64 = a.max_u64;
      few = omega (arith, counts.2, a.fits, a.max_u64, loaded, ap total e);
      roomy = h;
    }) in
    (
      s',
      ap (λ n. drain n s out) (counts.1 ∙ ap length e)
          ∙ run
          ∙ ap (λ ps. some (ps, s')) (sym (ap chunk_packets e) ∙ counts.0),
      p,
      l,
      λ i. view (same i) (flags i),
    )
  where
    counts :
        (chunk_packets s.chunks ≡ packets (window s))
        × (length (window s) ≡ length s.chunks)
        × (length s.chunks ≤ total s.chunks)
    counts = packets-view 0 s.chunks s.offset_recv s.off a.valid.laid

    loaded : total (b ∷ bs) ≡ load (window s)
    loaded = sym (ap total e) ∙ load-view 0 s.chunks s.offset_recv s.off a.valid.laid

-- As many calls of `emit` as the window has packets send exactly these packets, each once, in order
-- and whole; the last call, and no other, tells the sender to stop. Then the position is back at
-- the first packet, nothing is left to send, and all packets are kept for retransmission.
-- (Conditions: the buffer is valid and stands at its first packet, nothing of the window is counted
-- as sent, `len` and `used_length` are the bytes of the packets, which fill no more than `max_data`,
-- there is a packet, and `out` has room for one.)
pub drain-window :
    (s : SendBuf) (out : List ℕ)
    → AtStart s
    → 0 < length (window s)
    → 1024 ≤ length out
    → (s' : SendBuf) × (drain (length (window s)) s out ≡ some (packets (window s), s'))
      × (s'.pos ≡ 0)
      × (s'.len ≡ 0)
      × (window s' ≡ window s)
drain-window s out a some_packet h = split s.chunks refl
  where
    split :
        (bs : List RangeBuf)
        → s.chunks ≡ bs
        → (s' : SendBuf) × (drain (length (window s)) s out ≡ some (packets (window s), s'))
          × (s'.pos ≡ 0)
          × (s'.len ≡ 0)
          × (window s' ≡ window s)
    split [] e =
        absurd
          (omega (arith, ap length e, (packets-view 0 s.chunks s.offset_recv s.off a.valid.laid).1))
    split (b ∷ bs) e = drain_from s b bs out a e h

-- A whole round. `write` takes what the window has room for; then the sender emits every packet that
-- was not acknowledged, and behind these the new bytes cut into packets, in that order, each
-- exactly once, and stops. (Conditions: the buffer is valid, was not stopped and stands at its first
-- packet; the packets that were not acknowledged fill no more than the new window; the first piece
-- has at most 1024 bytes; there is something to send; `out` has room for a packet; and lengths and
-- offsets stay below 2 ^ 64.)
pub write_then_drain :
    (s : SendBuf) (d out : List ℕ) (window_size off_len max_ack : ℕ)
    → IsValid s
    → s.error ≡ none
    → s.pos ≡ 0
    → off_len ≤ 1024
    → window_size < u64_mod
    → length d < u64_mod
    → s.off + length d < u64_mod
    → load (drop_acked (window s)) ≤ window_size
    → 1024 ≤ length out
    → let n = min (length d) (window_size - load (drop_acked (window s))) in
      let es = drop_acked (window s) ++ fresh s.off (pieces (take n d) off_len) in
      0 < length es
      → (s' s'' : SendBuf) × (write s d window_size off_len max_ack ≡ some (ok n, s'))
        × (drain (length es) s' out ≡ some (packets es, s''))
        × (window s'' ≡ es)
write_then_drain s d out window_size off_len max_ack v running first small w64 d64 o64 fits h
      some_packet =
    let n : ℕ = min (length d) (window_size - load (drop_acked (window s))) in
    let (s', run, v', w) =
      write_refines d window_size off_len max_ack v running small w64 d64 o64 in
    let cs : List (List ℕ) = pieces (take n d) off_len in
    let counted : load (window s') ≡ load (drop_acked (window s)) + size cs =
      ap load w.seen
      ∙ load-append (drop_acked (window s)) (fresh s.off cs)
      ∙ ap (λ k. load (drop_acked (window s)) + k) (load-fresh s.off cs) in
    let (s'', sends, p, l, kept) =
      drain-window s' out
        (record {
          valid = v';
          first = w.same_pos ∙ first;
          none_sent = w.sent_reset;
          len_exact = w.len_exact;
          used_exact = w.used_exact;
          fits =
              omega
                (arith, counted, size-pieces (take n d) off_len, length-take n d, w.max_data_set);
          max_u64 = omega (arith, w.max_data_set);
        })
        (omega (arith, ap length w.seen)) h in
    (
      s',
      s'',
      run,
      subst (λ es. drain (length es) s' out ≡ some (packets es, s'')) w.seen sends,
      kept ∙ w.seen,
    )
