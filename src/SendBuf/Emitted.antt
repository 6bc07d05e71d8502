-- ===== src/SendBuf/Emitted.antt =====
-- What `SendBuf::emit` has done where it returns, on any valid buffer.
use dmludp.Prelude.{
  ℕ, zero, suc, ◌+◌, ◌≤◌, ◌<◌, ◌≡◌, refl, sym, ap₂, ◌∙◌, Bool, false, min, List, [], ◌∷◌, ◌++◌,
  length, drop, arith, u64_mod, some, Option, take_all, inl, inr, le→leb, sub64, add64,
  slice_to-some, copy_at-some, bind-some, ◌>>=◌, ◌⊎◌, subst,
}
use mathlib.Core.Option.{some-injective}
use native.Mathlib.Nat.{zero-add}
use dmludp.Error.{Result, ok}
use dmludp.RangeBuf.{RangeBuf}
use dmludp.SendBuf.{SendBuf, is_nil, ready, front_from, off_front, emit_loop, wrap_pos, emit}
use dmludp.SendBuf.Window.{IsChunk, IsValid, Laid, Laid-bounds, Entry, view, window}
use dmludp.SendBuf.Emit.{chunk-len, chunk-is_empty, chunk-off, is_nil-of_drop}

-- the same packets, in the same place
pub record Kept (s s' : SendBuf) : Type 0 where
  pub same_chunks : s'.chunks ≡ s.chunks
  pub same_flags : s'.offset_recv ≡ s.offset_recv
  pub same_off : s'.off ≡ s.off
  pub same_error : s'.error ≡ s.error

emit_loop-tests :
    (s : SendBuf) (b : RangeBuf) (rest : List RangeBuf) (out : List ℕ)
    → IsChunk b
    → is_nil s.chunks ≡ false
    → 1024 ≤ length out
    → emit_loop s (b ∷ rest) out (length out) ≡ (do
      pos ← add64 s.pos 1
      len ← sub64 s.len b.len
      used_length ← sub64 s.used_length b.len
      some (
        record s { len = len; used_length = used_length; pos = pos },
        b.bytes ++ drop (length b.bytes) out,
        b.len,
      ))
unfolding emit_loop ready
emit_loop-tests s b rest out c some_left h = rw (
  le→leb 1024 (length out) h,
  some_left,
  chunk-is_empty b c,
  chunk-len b c,
  whole_chunk,
  slice_to-some b.bytes b.len (omega arith),
  take_all b.len b.bytes (omega arith),
  copy_at-some out 0 b.bytes (omega arith),
  le→leb b.len b.len (omega arith),
  zero-add,
)
  where
    whole_chunk : min b.len (length out) ≡ b.len
    whole_chunk = omega arith

emit_loop-chunk :
    (s s' : SendBuf) (b : RangeBuf) (rest : List RangeBuf) (out out' : List ℕ) (n : ℕ)
    → IsChunk b
    → is_nil s.chunks ≡ false
    → 1024 ≤ length out
    → emit_loop s (b ∷ rest) out (length out) ≡ some (s', out', n)
    → Kept s s' × (out' ≡ b.bytes ++ drop (length b.bytes) out) × (n ≡ b.len)
emit_loop-chunk s s' b rest out out' n c some_left h e =
    let e' = sym (emit_loop-tests s b rest out c some_left h) ∙ e in
    let (pos, e0, e1) = bind-some (add64 s.pos 1) _ _ e' in
    let (len, e2, e3) = bind-some (sub64 s.len b.len) _ _ e1 in
    let (used, e4, e5) = bind-some (sub64 s.used_length b.len) _ _ e3 in
    (record { same_chunks = cc; same_flags = cc; same_off = cc; same_error = cc }, cc, cc)

wrap_pos-Kept : (s : SendBuf) → Kept s (wrap_pos s).1
unfolding wrap_pos
wrap_pos-Kept s = record {
  same_chunks = ground arith;
  same_flags = ground arith;
  same_off = ground arith;
  same_error = ground arith;
}

Kept-trans : {s t u : SendBuf} → Kept s t → Kept t u → Kept s u
Kept-trans k l = record {
  same_chunks = l.same_chunks ∙ k.same_chunks;
  same_flags = l.same_flags ∙ k.same_flags;
  same_off = l.same_off ∙ k.same_off;
  same_error = l.same_error ∙ k.same_error;
}

-- The chunk `b` was sent from a buffer whose packets are `es`: it is one of them.
abbrev pub IsOneOf : RangeBuf → List Entry → Type 0
IsOneOf b [] = ⊥
IsOneOf b (e ∷ es) = ((e.offset ≡ b.off) × (e.content ≡ b.bytes)) ⊎ IsOneOf b es

drop-Laid :
    (n lo : ℕ) (bs : List RangeBuf) (m : List (ℕ × Bool)) (hi : ℕ) (b : RangeBuf)
    (rest : List RangeBuf)
    → Laid lo bs m hi
    → drop n bs ≡ b ∷ rest
    → IsChunk b × (b.off + b.len ≤ hi) × IsOneOf b (view bs m)
drop-Laid zero lo [] m hi b rest l e = cc
drop-Laid (suc n) lo [] m hi b rest l e = cc
drop-Laid n lo (b' ∷ bs) [] hi b rest l e = absurd l
drop-Laid zero lo (b' ∷ bs) ((k, v) ∷ m) hi b rest (c, p, q, l) e =
    let same : b' ≡ b = cc in
    subst (λ x. IsChunk x × (x.off + x.len ≤ hi) × IsOneOf x (view (b' ∷ bs) ((k, v) ∷ m))) same
      (c, Laid-bounds (b'.off + b'.len) bs m hi l, inl (refl, refl))
drop-Laid (suc n) lo (b' ∷ bs) ((k, v) ∷ m) hi b rest (c, p, q, l) e =
    let (c', h, one) = drop-Laid n (b'.off + b'.len) bs m hi b rest l e in (c', h, inr one)

-- What `emit` has done: it sent nothing, at the end of the stream, or a whole chunk.
abbrev pub Emits : SendBuf → List ℕ → Result (ℕ × ℕ × Bool) → List ℕ → Type 0
Emits s out r out' =
    ((n : ℕ) × (stop : Bool) × (r ≡ ok (n, s.off, stop)))
    ⊎ ((b : RangeBuf) × (stop : Bool) × (r ≡ ok (b.len, b.off, stop))
        × IsChunk b
        × (b.off + b.len ≤ s.off)
        × IsOneOf b (window s)
        × (out' ≡ b.bytes ++ drop (length b.bytes) out))

-- `emit` behind its loop, and from the choice of the chunk on
abbrev Emission : Type 0
Emission = Option (Result (ℕ × ℕ × Bool) × SendBuf × List ℕ)

abbrev ended : ℕ → SendBuf × List ℕ × ℕ → Emission
ended off (s1, out1, n) = do
  sent ← add64 s1.sent n
  let (stop, s2) = wrap_pos (record s1 { sent = sent })
  some (ok (n, off, stop), s2, out1)

abbrev emit_from : SendBuf → List ℕ → List RangeBuf → Emission
emit_from s out bs = do
  off ← front_from bs s.off
  looped ← emit_loop s bs out (length out)
  ended off looped

front_from-chunk :
    (b : RangeBuf) (rest : List RangeBuf) (last : ℕ)
    → IsChunk b
    → b.off < u64_mod
    → front_from (b ∷ rest) last ≡ some b.off
unfolding front_from
front_from-chunk b rest last c h = rw (chunk-is_empty b c, chunk-off b c h)

behind_loop :
    (s s1 s' : SendBuf) (out1 out' : List ℕ) (n off : ℕ) (r : Result (ℕ × ℕ × Bool))
    → Kept s s1
    → ended off (s1, out1, n) ≡ some (r, s', out')
    → Kept s s' × ((stop : Bool) × (r ≡ ok (n, off, stop))) × (out' ≡ out1)
behind_loop s s1 s' out1 out' n off r k e =
    let (sent, _, e1) = bind-some (add64 s1.sent n) _ _ e in
    let last : (wrap_pos (record s1 { sent = sent })).1 ≡ s' = cc in
    (
      Kept-trans k (subst (Kept s1) last (moved (wrap_pos-Kept (record s1 { sent = sent })))),
      ((wrap_pos (record s1 { sent = sent })).0, cc),
      cc,
    )
  where
    moved : {sent : ℕ} {t : SendBuf} → Kept (record s1 { sent = sent }) t → Kept s1 t
    moved q = record {
      same_chunks = q.same_chunks;
      same_flags = q.same_flags;
      same_off = q.same_off;
      same_error = q.same_error;
    }

-- What `emit` has done where it returns: the packets are as they were, and it sent the whole of one of
-- them, or nothing, with the offset at which the buffer ends.
pub emit-Emits :
    (s s' : SendBuf) (out out' : List ℕ) (r : Result (ℕ × ℕ × Bool))
    → IsValid s
    → 1024 ≤ length out
    → emit s out ≡ some (r, s', out')
    → Kept s s' × Emits s out r out'
unfolding emit off_front front_from emit_loop
emit-Emits s s' out out' r v h e = split (drop s.pos s.chunks) refl e
  where
    split :
        (bs : List RangeBuf)
        → drop s.pos s.chunks ≡ bs
        → emit_from s out bs ≡ some (r, s', out')
        → Kept s s' × Emits s out r out'
    split [] none_left e =
        let (k, (stop, q), _) =
          behind_loop s s s' out out' (length out) s.off r
            (record { same_chunks = refl; same_flags = refl; same_off = refl; same_error = refl })
            e in
        (k, inl (length out, stop, q))
    split (b ∷ rest) next e =
        let (c, below, one) = drop-Laid s.pos 0 s.chunks s.offset_recv s.off b rest v.laid next in
        let (off, first, e1) = bind-some (front_from (b ∷ rest) s.off) _ _ e in
        let ((s1, out1, n), looped, e2) =
          bind-some (emit_loop s (b ∷ rest) out (length out)) _ _ e1 in
        let at : off ≡ b.off =
          some-injective _ _
            (sym first ∙ front_from-chunk b rest s.off c (omega (arith, below, v.off_u64))) in
        let (k1, filled, whole) =
          emit_loop-chunk s s1 b rest out out1 n c (is_nil-of_drop s.pos s.chunks b rest next) h
            looped in
        let (k, (stop, q), o) = behind_loop s s1 s' out1 out' n off r k1 e2 in
        (k, inr (b, stop, q ∙ ap₂ (λ k j. ok (k, j, stop)) whole at, c, below, one, o ∙ filled))
