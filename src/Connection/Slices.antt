-- ===== src/Connection/Slices.antt =====
-- Pieces of a stream at their offsets: what `Connection` of src/lib.rs keeps in its send buffer, writes
-- into data packets, and stores in its receive buffer.
use dmludp.Prelude.{
  ℕ, ◌+◌, ◌≤◌, ◌≡◌, refl, sym, ap, ◌∙◌, List, [], ◌∷◌, ◌++◌, length, take, drop, arith, concat,
  append_assoc, length-append, length-drop, drop-drop, drop-append_of_length, take-append_of_length,
  Bool-cases, inl, inr, ◌==◌, ltb, subst, some, if-false, if-true,
}
use mathlib.Core.Option.{some-injective}
use dmludp.Prelude.Maps.{lookup, tree_insert}
use dmludp.RangeBuf.{RangeBuf}
use dmludp.SendBuf.Window.{Entry, drop_acked}
use dmludp.SendBuf.Push.{fresh}
use dmludp.Connection.Settle.{Settled}

-- `bytes` stand in `d` from the offset `off` on
pub record IsSlice (d : List ℕ) (off : ℕ) (bytes : List ℕ) : Type 0 where
  pub rest : List ℕ
  pub cut : drop off d ≡ bytes ++ rest
  pub within : off + length bytes ≤ length d

abbrev pub AllSlices : List ℕ → List Entry → Type 0
AllSlices d [] = Unit
AllSlices d (e ∷ es) = IsSlice d e.offset e.content × AllSlices d es

pub AllSlices-append :
    (d : List ℕ) (es fs : List Entry) → AllSlices d es → AllSlices d fs → AllSlices d (es ++ fs)
AllSlices-append d [] fs a b = b
AllSlices-append d (e ∷ es) fs (h, a) b = (h, AllSlices-append d es fs a b)

pub AllSlices-drop_acked :
    (d : List ℕ) (es : List Entry) → AllSlices d es → AllSlices d (drop_acked es)
AllSlices-drop_acked d [] a = tt
AllSlices-drop_acked d (e ∷ es) (h, a) = elim (Bool-cases e.pending) [
  | inl waits ↦ rw waits (h, AllSlices-drop_acked d es a)
  | inr acked ↦ rw acked (AllSlices-drop_acked d es a)
]

-- Consecutive pieces of the bytes from `o` on are slices at their offsets.
pub fresh-AllSlices :
    (d : List ℕ) (o : ℕ) (cs : List (List ℕ)) (rest : List ℕ)
    → drop o d ≡ concat cs ++ rest
    → o ≤ length d
    → AllSlices d (fresh o cs)
fresh-AllSlices d o [] rest e h = tt
fresh-AllSlices d o (c ∷ cs) rest e h =
    let split : drop o d ≡ c ++ (concat cs ++ rest) = e ∙ append_assoc c (concat cs) rest in
    let fits : o + length c ≤ length d =
      omega (arith, length-drop o d, ap length split, length-append c (concat cs ++ rest)) in
    (
      record { rest = concat cs ++ rest; cut = split; within = fits },
      fresh-AllSlices d (o + length c) cs rest
          (sym (drop-drop (length c) o d)
            ∙ ap (drop (length c)) split
            ∙ drop-append_of_length (length c) c (concat cs ++ rest) refl)
          fits,
    )

pub Settled-AllSlices :
    (d : List ℕ) (es fs : List Entry) → Settled es fs → AllSlices d es → AllSlices d fs
Settled-AllSlices d [] [] s a = tt
Settled-AllSlices d (e ∷ es) (g ∷ fs) (o, c, p, s) (h, a) =
    (rw (o, c) h, Settled-AllSlices d es fs s a)
Settled-AllSlices d [] (g ∷ fs) s a = absurd s
Settled-AllSlices d (e ∷ es) [] s a = absurd s

-- the chunk that a map holds stands in the stream, and its key is the offset of its end
abbrev pub IsHeld : List ℕ → ℕ → RangeBuf → Type 0
IsHeld d k b = (k ≡ b.off + length b.bytes) × IsSlice d b.off b.bytes

abbrev pub AllHeld : List ℕ → List (ℕ × RangeBuf) → Type 0
AllHeld d [] = Unit
AllHeld d ((k, b) ∷ m) = IsHeld d k b × AllHeld d m

pub tree_insert-AllHeld :
    (d : List ℕ) (k : ℕ) (b : RangeBuf) (m : List (ℕ × RangeBuf))
    → IsHeld d k b
    → AllHeld d m
    → AllHeld d (tree_insert k b m)
unfolding tree_insert
tree_insert-AllHeld d k b [] h a = (h, tt)
tree_insert-AllHeld d k b ((j, w) ∷ m) h (g, a) = elim (Bool-cases (j == k)) [
  | inl same ↦ rw same (h, a)
  | inr other ↦ elim (Bool-cases (ltb k j)) [
    | inl before ↦ rw (other, before) (h, (g, a))
    | inr behind ↦ rw (other, behind) (g, tree_insert-AllHeld d k b m h a)
  ]
]

pub AllHeld-lookup :
    (d : List ℕ) (k : ℕ) (b : RangeBuf) (m : List (ℕ × RangeBuf))
    → AllHeld d m
    → lookup k m ≡ some b
    → IsHeld d k b
unfolding lookup
AllHeld-lookup d k b [] a e = cc
AllHeld-lookup d k b ((j, w) ∷ m) (g, a) e = elim (Bool-cases (j == k)) [
  | inl same ↦
      let chunk : w ≡ b = some-injective w b (sym (if-true _ _ _ same) ∙ e) in
      let key : j ≡ k = ground (arith, same) in
      subst (λ n. IsHeld d n b) key (subst (IsHeld d j) chunk g)
  | inr other ↦ AllHeld-lookup d k b m a (sym (if-false _ _ _ other) ∙ e)
]

pub slice-take :
    (d : List ℕ) (off : ℕ) (bytes : List ℕ)
    → IsSlice d off bytes
    → bytes ≡ take (length bytes) (drop off d)
slice-take d off bytes s =
    sym (ap (take (length bytes)) s.cut ∙ take-append_of_length (length bytes) bytes s.rest refl)
