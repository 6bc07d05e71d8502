-- ===== src/SendBuf/Drain.antt =====
-- `SendBuf::emit` called again and again, as `Connection::send_data` does until it is told to stop.
use dmludp.Prelude.{
  ℕ, zero, suc, ◌+◌, ◌-◌, ◌≤◌, ◌<◌, ◌≡◌, refl, ap, sym, ◌∙◌, Bool, true, false, List, [], ◌∷◌, ◌++◌,
  length, take, drop, arith, u64_mod, some, none, Option, length-drop, drop-drop, ◌>>=◌,
  take-append_of_length,
}
use dmludp.Error.{ok, err}
use dmludp.RangeBuf.{RangeBuf}
use dmludp.SendBuf.{SendBuf, total, emit}
use dmludp.SendBuf.Window.{IsChunk, Entry}
use dmludp.SendBuf.Emit.{emit_lem, sent_chunk, stops}

-- A packet on its way: its bytes, its offset, and whether `emit` said that the window is done.
abbrev pub Packet : Type 0
Packet = List ℕ × ℕ × Bool

-- `k` calls of `emit` on buffers that hold `out`, and the packets that they make
unfoldable pub drain : ℕ → SendBuf → List ℕ → Option (List Packet × SendBuf)
drain zero s out = some ([], s)
drain (suc k) s out = do
  (r, s', out') ← emit s out
  elim r [
    | err e ↦ none
    | ok (n, off, stop) ↦ do (ps, s'') ← drain k s' out; some ((take n out', off, stop) ∷ ps, s'')
  ]

-- the packets of a window: every entry once, in order, and the last one marked
abbrev pub packets : List Entry → List Packet
packets [] = []
packets (e ∷ []) = (e.content, e.offset, true) ∷ []
packets (e ∷ f ∷ es) = (e.content, e.offset, false) ∷ packets (f ∷ es)

unfoldable pub chunk_packets : List RangeBuf → List Packet
chunk_packets [] = []
chunk_packets (b ∷ []) = (b.bytes, b.off, true) ∷ []
chunk_packets (b ∷ c ∷ bs) = (b.bytes, b.off, false) ∷ chunk_packets (c ∷ bs)

abbrev pub AllChunks : List RangeBuf → Type 0
AllChunks [] = Unit
AllChunks (b ∷ bs) = IsChunk b × (b.off < u64_mod) × AllChunks bs

-- What `drain` needs of a state with the chunks `rest` still to send.
pub record CanSend (s : SendBuf) (rest : List RangeBuf) (out : List ℕ) : Type 0 where
  pub here : drop s.pos s.chunks ≡ rest
  pub all_chunks : AllChunks rest
  pub counted : s.len ≡ total rest
  pub used : s.used_length ≡ total rest
  pub fits : s.sent + total rest ≤ s.max_data
  pub max_u64 : s.max_data < u64_mod
  pub few : length s.chunks < u64_mod
  pub roomy : 1024 ≤ length out

left-length :
    (s : SendBuf) (rest : List RangeBuf) (out : List ℕ)
    → CanSend s rest out
    → length s.chunks - s.pos ≡ length rest
left-length s rest out w = sym (length-drop s.pos s.chunks) ∙ ap length w.here

-- With more chunks behind it, `b` is sent and the position moves on.
stops_more :
    (s : SendBuf) (b c : RangeBuf) (rest : List RangeBuf) (out : List ℕ)
    → CanSend s (b ∷ c ∷ rest) out
    → stops s b ≡ false
stops_more s b c rest out w = ground (arith, w, left-length s (b ∷ c ∷ rest) out w)

stops_last : (s : SendBuf) (b : RangeBuf) (out : List ℕ) → CanSend s (b ∷ []) out → stops s b ≡ true
stops_last s b out w = ground (arith, w, left-length s (b ∷ []) out w)

CanSend-next :
    (s : SendBuf) (b c : RangeBuf) (rest : List RangeBuf) (out : List ℕ)
    → CanSend s (b ∷ c ∷ rest) out
    → CanSend (sent_chunk s b false) (c ∷ rest) out
CanSend-next s b c rest out w = record {
  here = sym (drop-drop 1 s.pos s.chunks) ∙ ap (drop 1) w.here;
  all_chunks = w.all_chunks.2;
  counted = omega (arith, w.counted, w.all_chunks.0.whole);
  used = omega (arith, w.used, w.all_chunks.0.whole);
  fits = omega (arith, w.fits, w.all_chunks.0.whole);
  max_u64 = w.max_u64;
  few = w.few;
  roomy = w.roomy;
}

emit_now :
    (s : SendBuf) (b : RangeBuf) (rest : List RangeBuf) (out : List ℕ) (stop : Bool)
    → CanSend s (b ∷ rest) out
    → stops s b ≡ stop
    → emit s out
      ≡ some (ok (b.len, b.off, stop), sent_chunk s b stop, b.bytes ++ drop (length b.bytes) out)
emit_now s b rest out stop w e =
    emit_lem s b rest out chunk w.here w.all_chunks.1 (omega (arith, w.counted, chunk.whole))
      (omega (arith, w.used, chunk.whole)) w.roomy
      (omega (arith, left-length s (b ∷ rest) out w, w.few))
      (omega (arith, w.fits, w.max_u64, chunk.whole))
    ∙ ap (λ t. some (ok (b.len, b.off, t), sent_chunk s b t, b.bytes ++ drop (length b.bytes) out))
        e
  where
    chunk : IsChunk b
    chunk = w.all_chunks.0

-- One call of `emit` for each chunk that is left.
pub drain_rest :
    (s : SendBuf) (b : RangeBuf) (rest : List RangeBuf) (out : List ℕ)
    → CanSend s (b ∷ rest) out
    → (s' : SendBuf) × (drain (length (b ∷ rest)) s out ≡ some (chunk_packets (b ∷ rest), s'))
      × (s'.pos ≡ 0)
      × (s'.len ≡ 0)
      × (s'.chunks ≡ s.chunks)
      × (s'.offset_recv ≡ s.offset_recv)
unfolding drain chunk_packets
drain_rest s b [] out w = (
  sent_chunk s b true,
  rw (emit_now s b [] out true w (stops_last s b out w)) (
      ap (λ c. some ((c, b.off, true) ∷ [], sent_chunk s b true))
        (take-append_of_length b.len b.bytes _ (sym w.all_chunks.0.whole))),
  refl,
  omega (arith, w.counted, w.all_chunks.0.whole),
  refl,
  refl,
)
drain_rest s b (c ∷ rest) out w =
    let (s', e, p, l, same, flags) =
      drain_rest (sent_chunk s b false) c rest out (CanSend-next s b c rest out w) in
    (
      s',
      rw (emit_now s b (c ∷ rest) out false w (stops_more s b c rest out w), e)
          (ap (λ x. some ((x, b.off, false) ∷ chunk_packets (c ∷ rest), s'))
            (take-append_of_length b.len b.bytes _ (sym w.all_chunks.0.whole))),
      p,
      l,
      same,
      flags,
    )
