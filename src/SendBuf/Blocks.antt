-- ===== src/SendBuf/Blocks.antt =====
-- No packet of the window crosses the border of a block of 1024 bytes, for which priorities are kept.
use dmludp.Prelude.{
  ℕ, ◌+◌, ◌%◌, ◌≤◌, ◌<◌, ◌≡◌, ltb, List, [], ◌∷◌, ◌++◌, length, take, drop, arith, Bool-cases, inl,
  inr, chunks, Full, chunks-Full, length-take,
}
use dmludp.SendBuf.Window.{Entry, drop_acked}
use dmludp.SendBuf.Push.{fresh}
use dmludp.SendBuf.Pieces.{pieces}

abbrev pub InBlock : Entry → Type 0
InBlock e = e.offset % 1024 + length e.content ≤ 1024

abbrev pub AllInBlock : List Entry → Type 0
AllInBlock [] = Unit
AllInBlock (e ∷ es) = InBlock e × AllInBlock es

pub AllInBlock-append : (es fs : List Entry) → AllInBlock es → AllInBlock fs → AllInBlock (es ++ fs)
AllInBlock-append [] fs a b = b
AllInBlock-append (e ∷ es) fs (h, a) b = (h, AllInBlock-append es fs a b)

pub AllInBlock-drop_acked : (es : List Entry) → AllInBlock es → AllInBlock (drop_acked es)
AllInBlock-drop_acked [] a = tt
AllInBlock-drop_acked (e ∷ es) (h, a) = elim (Bool-cases e.pending) [
  | inl waits ↦ rw waits (h, AllInBlock-drop_acked es a)
  | inr acked ↦ rw acked (AllInBlock-drop_acked es a)
]

-- pieces of 1024 from the start of a block on
Full-AllInBlock :
    (o : ℕ) (cs : List (List ℕ)) → o % 1024 ≡ 0 → Full 1024 cs → AllInBlock (fresh o cs)
Full-AllInBlock o [] a f = tt
Full-AllInBlock o (c ∷ []) a (small, whole, f) = (omega (arith, a, small), tt)
Full-AllInBlock o (c ∷ d ∷ cs) a (small, whole, f) = (
  omega (arith, a, small),
  Full-AllInBlock (o + length c) (d ∷ cs) (omega (arith, a, whole (λ e. cc))) f,
)

-- A first piece that ends at the border of a block, and then pieces of 1024
pub pieces-AllInBlock :
    (o off_len : ℕ) (d : List ℕ)
    → off_len < 1024
    → (o + off_len) % 1024 ≡ 0
    → AllInBlock (fresh o (pieces d off_len))
pieces-AllInBlock o off_len [] small a = tt
pieces-AllInBlock o off_len (x ∷ d) small a = elim (Bool-cases (ltb 0 off_len)) [
  | inl some_first ↦ elim (Bool-cases (ltb off_len (length (x ∷ d)))) [
    | inl more ↦
        rw (some_first, more)
          (
            ground (arith, length-take off_len (x ∷ d), small, a),
            Full-AllInBlock (o + length (take off_len (x ∷ d))) (chunks 1024 (drop off_len (x ∷ d)))
                (ground (arith, length-take off_len (x ∷ d), a))
                (chunks-Full 1024 (drop off_len (x ∷ d))),
          )
    | inr less ↦ rw (some_first, less) (ground (arith, small, a), tt)
  ]
  | inr no_first ↦ rw no_first (
      Full-AllInBlock o (chunks 1024 (drop off_len (x ∷ d))) (ground arith)
        (chunks-Full 1024 (drop off_len (x ∷ d))))
]
