-- ===== src/SendBuf/Window.antt =====
-- The abstract view of a `SendBuf`: the packets that are in the window, each with its offset, its
-- bytes and whether it still waits for an acknowledgement.
use dmludp.Prelude.{
  ℕ, ◌+◌, ◌≤◌, ◌<◌, ◌≡◌, Bool, false, if◌then◌else◌, ◌==◌, List, [], ◌∷◌, length, arith, u64_mod,
}
use dmludp.RangeBuf.{RangeBuf}
use dmludp.SendBuf.{SendBuf}

-- A chunk as `write` makes it: whole, not consumed, of 1 to 1024 bytes.
pub record IsChunk (b : RangeBuf) : Type 0 where
  pub starts : b.start ≡ 0
  pub untouched : b.pos ≡ 0
  pub whole : b.len ≡ length b.bytes
  pub not_empty : 0 < b.len
  pub not_large : b.len ≤ 1024

-- From offset `lo` on, the chunks lie in ascending order without overlap and end at `hi` or before,
-- and the flags belong to their offsets, in the same order.
abbrev pub Laid : ℕ → List RangeBuf → List (ℕ × Bool) → ℕ → Type 0
Laid lo [] [] hi = lo ≤ hi
Laid lo (b ∷ bs) ((k, v) ∷ m) hi =
    IsChunk b × (k ≡ b.off) × (lo ≤ b.off) × Laid (b.off + b.len) bs m hi
Laid lo [] (f ∷ m) hi = ⊥
Laid lo (b ∷ bs) [] hi = ⊥

-- The invariant: `recv_and_drop` needs it to match the chunks with their flags by position.
pub record IsValid (s : SendBuf) : Type 0 where
  pub laid : Laid 0 s.chunks s.offset_recv s.off
  pub off_u64 : s.off < u64_mod

pub record Entry : Type 0 where
  pub offset : ℕ
  pub content : List ℕ
  pub pending : Bool

abbrev pub view : List RangeBuf → List (ℕ × Bool) → List Entry
view [] m = []
view (b ∷ bs) [] = []
view (b ∷ bs) ((k, v) ∷ m) = record { offset = b.off; content = b.bytes; pending = v } ∷ view bs m

abbrev pub window : SendBuf → List Entry
window s = view s.chunks s.offset_recv

-- An acknowledgement of `offset` ends the waiting of the packet that stands there.
abbrev pub ack : ℕ → List Entry → List Entry
ack offset [] = []
ack offset (e ∷ es) =
    (if e.offset == offset then record e { pending = false } else e) ∷ ack offset es

abbrev pub drop_acked : List Entry → List Entry
drop_acked [] = []
drop_acked (e ∷ es) = if e.pending then e ∷ drop_acked es else drop_acked es

pub Laid-weaken :
    (lo' lo : ℕ) (bs : List RangeBuf) (m : List (ℕ × Bool)) (hi : ℕ)
    → lo' ≤ lo
    → Laid lo bs m hi
    → Laid lo' bs m hi
Laid-weaken lo' lo [] [] hi h l = omega arith
Laid-weaken lo' lo (b ∷ bs) ((k, v) ∷ m) hi h (c, e, p, l) = (c, e, omega arith, l)
Laid-weaken lo' lo [] (f ∷ m) hi h l = l
Laid-weaken lo' lo (b ∷ bs) [] hi h l = l

pub Laid-bounds :
    (lo : ℕ) (bs : List RangeBuf) (m : List (ℕ × Bool)) (hi : ℕ) → Laid lo bs m hi → lo ≤ hi
Laid-bounds lo [] [] hi l = l
Laid-bounds lo (b ∷ bs) ((k, v) ∷ m) hi (c, e, p, l) =
    omega (arith, Laid-bounds (b.off + b.len) bs m hi l)
Laid-bounds lo [] (f ∷ m) hi l = absurd l
Laid-bounds lo (b ∷ bs) [] hi l = absurd l
