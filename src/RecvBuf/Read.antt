-- ===== src/RecvBuf/Read.antt =====
-- `RecvBuf::emit` where everything that is buffered fits into the reader's buffer.
use dmludp.Prelude.{
  ℕ, ◌+◌, ◌-◌, ◌≤◌, ◌<◌, ◌≡◌, refl, ap, ◌∙◌, sym, false, min, List, [], ◌∷◌, ◌++◌, length, take,
  drop, arith, u64_mod, some, take_all, length-append, length-take, length-drop, add64-some,
  slice_to-some, copy_at-some, lt→ltb, ltb_irrefl,
}
use native.Mathlib.Nat.{add-zero, zero-add, add_assoc}
use dmludp.Error.{ok}
use dmludp.RangeBuf.{RangeBuf, len as range_len, max_off as range_max_off}
use dmludp.RecvBuf.{RecvBuf, missing, emit_loop, emit}
use dmludp.SendBuf.{is_nil}

-- A chunk as `write` stores it, of which nothing was read.
pub record IsWhole (b : RangeBuf) : Type 0 where
  pub starts : b.start ≡ 0
  pub untouched : b.pos ≡ 0
  pub whole : b.len ≡ length b.bytes
  pub ends : b.off + b.len < u64_mod

-- In ascending order and without overlap from offset `last` on, the chunks fit one after the other
-- into what `cap` leaves, gaps taken off.
abbrev pub Fits : ℕ → ℕ → List (ℕ × RangeBuf) → Type 0
Fits last cap [] = Unit
Fits last cap ((k, b) ∷ rest) =
    IsWhole b
    × (last ≤ b.off)
    × (b.off - last < cap)
    × (b.len ≤ cap - (b.off - last))
    × Fits (b.off + b.len) (cap - (b.off - last)) rest

-- the bytes that are missing between the chunks
abbrev pub gaps : ℕ → List (ℕ × RangeBuf) → ℕ
gaps last [] = 0
gaps last ((k, b) ∷ rest) = b.off - last + gaps (b.off + b.len) rest

abbrev pub end_of : ℕ → List (ℕ × RangeBuf) → ℕ
end_of last [] = last
end_of last ((k, b) ∷ rest) = end_of (b.off + b.len) rest

abbrev pub put : List ℕ → ℕ → List ℕ → List ℕ
put out at c = take at out ++ (c ++ drop (at + length c) out)

-- The reader's buffer: each chunk is written at the number of bytes missing before it, over what
-- the chunks before it wrote there.
abbrev pub placed : ℕ → ℕ → List (ℕ × RangeBuf) → List ℕ → List ℕ
placed at last [] out = out
placed at last ((k, b) ∷ rest) out =
    placed (at + (b.off - last)) (b.off + b.len) rest (put out (at + (b.off - last)) b.bytes)

length-put :
    (out : List ℕ) (at : ℕ) (c : List ℕ)
    → at + length c ≤ length out
    → length (put out at c) ≡ length out
length-put out at c h = omega (
  arith,
  length-append (take at out) (c ++ drop (at + length c) out),
  length-append c (drop (at + length c) out),
  length-take at out,
  length-drop (at + length c) out,
)

module _ (b : RangeBuf) (w : IsWhole b) where
  whole-len : range_len b ≡ some b.len
  unfolding range_len
  whole-len = ground (arith, w)

  whole-max_off : range_max_off b ≡ some (b.off + b.len)
  unfolding range_max_off
  whole-max_off = ground (arith, w)

missing_lem : (off len last : ℕ) → last ≤ off → missing (off + len) last len ≡ some (off - last)
unfolding missing
missing_lem off len last h = ground arith

emit_loop_lem :
    (chunks : List (ℕ × RangeBuf)) (last cap len : ℕ) (out : List ℕ)
    → Fits last cap chunks
    → cap + len ≡ length out
    → length out < u64_mod
    → emit_loop last chunks cap len out
      ≡ some (end_of last chunks, [], len + gaps last chunks, placed len last chunks out)
unfolding emit_loop
emit_loop_lem [] last cap len out f e h = ap (λ n. some (last, [], n, out)) (sym (add-zero len))
emit_loop_lem ((k, b) ∷ rest) last cap len out (w, o, g, l, f) e h =
    rw
      (
        lt→ltb 0 cap (omega arith),
        whole-max_off b w,
        whole-len b w,
        missing_lem b.off b.len last o,
        lt→ltb (b.off - last) cap g,
        add64-some len (b.off - last) (omega arith),
        add64-some last (b.off - last) (omega (arith, w.ends)),
        all_of_it,
        slice_to-some b.bytes b.len (omega arith),
        take_all b.len b.bytes (omega arith),
        copy_at-some out (len + (b.off - last)) b.bytes (omega arith),
        reached,
        add64-some b.off b.len w.ends,
        ltb_irrefl b.len,
      )
      (emit_loop_lem rest (b.off + b.len) (cap - (b.off - last)) (len + (b.off - last))
          (put out (len + (b.off - last)) b.bytes) f (omega (arith, same_length))
          (omega (arith, same_length))
        ∙ ap
            (λ n. some (
              end_of (b.off + b.len) rest,
              [],
              n,
              placed (len + (b.off - last)) (b.off + b.len) rest
                  (put out (len + (b.off - last)) b.bytes),
            ))
            (add_assoc len (b.off - last) (gaps (b.off + b.len) rest)))
  where
    all_of_it : min b.len (cap - (b.off - last)) ≡ b.len
    all_of_it = omega arith

    reached : last + (b.off - last) ≡ b.off
    reached = omega arith

    same_length : length (put out (len + (b.off - last)) b.bytes) ≡ length out
    same_length = length-put out (len + (b.off - last)) b.bytes (omega arith)

-- Where all chunks fit into the reader's buffer, `emit` takes them all and moves on to the end of the
-- last one, and the number that it returns is that of the missing bytes between them, not of the
-- bytes read: it does not count the bytes of a chunk, and writes the next chunk over them.
pub emit_counts_gaps :
    (r : RecvBuf) (out : List ℕ)
    → is_nil r.chunks ≡ false
    → Fits r.last_maxoff (length out) r.chunks
    → length out < u64_mod
    → emit r out
      ≡ some (
        ok (gaps r.last_maxoff r.chunks),
        record r { last_maxoff = end_of r.last_maxoff r.chunks; chunks = [] },
        placed 0 r.last_maxoff r.chunks out,
      )
unfolding emit
emit_counts_gaps r out some_chunk f h =
    rw (some_chunk, emit_loop_lem r.chunks r.last_maxoff (length out) 0 out f (add-zero _) h)
      (ap
        (λ n. some (
          ok n,
          record r { last_maxoff = end_of r.last_maxoff r.chunks; chunks = [] },
          placed 0 r.last_maxoff r.chunks out,
        ))
        (zero-add (gaps r.last_maxoff r.chunks)))

-- Each chunk begins where the one before it ends.
abbrev pub Contiguous : ℕ → List (ℕ × RangeBuf) → Type 0
Contiguous last [] = Unit
Contiguous last ((k, b) ∷ rest) = (b.off ≡ last) × Contiguous (b.off + b.len) rest

gaps_of_Contiguous :
    (last : ℕ) (chunks : List (ℕ × RangeBuf)) → Contiguous last chunks → gaps last chunks ≡ 0
gaps_of_Contiguous last [] c = refl
gaps_of_Contiguous last ((k, b) ∷ rest) (e, c) =
    omega (arith, gaps_of_Contiguous (b.off + b.len) rest c)

-- So where nothing is missing, `emit` reports that it read no byte at all, although it has consumed
-- every chunk.
pub emit_reports_none :
    (r : RecvBuf) (out : List ℕ)
    → is_nil r.chunks ≡ false
    → Fits r.last_maxoff (length out) r.chunks
    → Contiguous r.last_maxoff r.chunks
    → length out < u64_mod
    → (r' : RecvBuf) × (out' : List ℕ) × (emit r out ≡ some (ok 0, r', out')) × (r'.chunks ≡ [])
emit_reports_none r out some_chunk f c h = (
  record r { last_maxoff = end_of r.last_maxoff r.chunks; chunks = [] },
  placed 0 r.last_maxoff r.chunks out,
  emit_counts_gaps r out some_chunk f h
      ∙ ap
          (λ n. some (
            ok n,
            record r { last_maxoff = end_of r.last_maxoff r.chunks; chunks = [] },
            placed 0 r.last_maxoff r.chunks out,
          ))
          (gaps_of_Contiguous r.last_maxoff r.chunks c),
  refl,
)
