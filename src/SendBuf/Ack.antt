-- ===== src/SendBuf/Ack.antt =====
-- `ack_and_drop` and `recv_and_drop` against the abstract window.
use dmludp.Prelude.{
  ℕ, ◌+◌, ◌<◌, ◌≡◌, refl, ap, Bool, true, false, if◌then◌else◌, ◌==◌, List, [], ◌∷◌, arith, some,
  Bool-cases, inl, inr,
}
use dmludp.Prelude.Maps.{update, values}
use dmludp.RangeBuf.{RangeBuf}
use dmludp.SendBuf.{SendBuf, is_nil, retain, retain_true, recv_and_drop, ack_and_drop}
use dmludp.SendBuf.Window.{Laid, IsValid, view, window, ack, drop_acked, Laid-weaken}

-- A key below all those of the chunks changes nothing.
update_below :
    (k lo : ℕ) (bs : List RangeBuf) (m : List (ℕ × Bool)) (hi : ℕ)
    → k < lo
    → Laid lo bs m hi
    → (update k false m ≡ m) × (ack k (view bs m) ≡ view bs m)
unfolding update
update_below k lo [] [] hi h l = (refl, refl)
update_below k lo (b ∷ bs) ((j, v) ∷ m) hi h (c, e, p, l) =
    ground (arith, update_below k (b.off + b.len) bs m hi (omega arith) l)
update_below k lo [] (f ∷ m) hi h l = absurd l
update_below k lo (b ∷ bs) [] hi h l = absurd l

update-Laid :
    (k lo : ℕ) (bs : List RangeBuf) (m : List (ℕ × Bool)) (hi : ℕ)
    → Laid lo bs m hi
    → Laid lo bs (update k false m) hi
unfolding update
update-Laid k lo [] [] hi l = l
update-Laid k lo (b ∷ bs) ((j, v) ∷ m) hi (c, e, p, l) = elim (Bool-cases (j == k)) [
  | inl t ↦ rw t (c, e, p, l)
  | inr t ↦ rw t (c, e, p, update-Laid k (b.off + b.len) bs m hi l)
]
update-Laid k lo [] (f ∷ m) hi l = absurd l
update-Laid k lo (b ∷ bs) [] hi l = absurd l

-- Offsets are distinct, so the first entry that is updated is the only one.
view-update :
    (k lo : ℕ) (bs : List RangeBuf) (m : List (ℕ × Bool)) (hi : ℕ)
    → Laid lo bs m hi
    → view bs (update k false m) ≡ ack k (view bs m)
unfolding update
view-update k lo [] [] hi l = refl
view-update k lo (b ∷ bs) ((j, v) ∷ m) hi (c, e, p, l) = elim (Bool-cases (j == k)) [
  | inl t ↦ ground (arith, update_below k (b.off + b.len) bs m hi (ground arith) l)
  | inr t ↦ ground (arith, view-update k (b.off + b.len) bs m hi l)
]
view-update k lo [] (f ∷ m) hi l = absurd l
view-update k lo (b ∷ bs) [] hi l = absurd l

-- `ack_and_drop` keeps the invariant, and in the window it ends the waiting of exactly the packet
-- at that offset; for any other offset it does nothing.
pub ack_and_drop_refines :
    {s : SendBuf} (offset : ℕ)
    → IsValid s
    → IsValid (ack_and_drop s offset) × (window (ack_and_drop s offset) ≡ ack offset (window s))
unfolding ack_and_drop
ack_and_drop_refines {s} offset v = (
  record { laid = update-Laid offset 0 s.chunks s.offset_recv s.off v.laid; off_u64 = v.off_u64 },
  view-update offset 0 s.chunks s.offset_recv s.off v.laid,
)

-- the chunks whose flag is still true
abbrev pub keep : List RangeBuf → List (ℕ × Bool) → List RangeBuf
keep [] m = []
keep (b ∷ bs) [] = []
keep (b ∷ bs) ((k, v) ∷ m) = if v then b ∷ keep bs m else keep bs m

retain-keep :
    (lo : ℕ) (bs : List RangeBuf) (m : List (ℕ × Bool)) (hi : ℕ)
    → Laid lo bs m hi
    → retain bs (values m) ≡ some (keep bs m)
unfolding retain
retain-keep lo [] [] hi l = refl
retain-keep lo (b ∷ bs) ((k, v) ∷ m) hi (c, e, p, l) =
    rw (retain-keep (b.off + b.len) bs m hi l) (ground arith)
retain-keep lo [] (f ∷ m) hi l = absurd l
retain-keep lo (b ∷ bs) [] hi l = absurd l

keep-Laid :
    (lo : ℕ) (bs : List RangeBuf) (m : List (ℕ × Bool)) (hi : ℕ)
    → Laid lo bs m hi
    → Laid lo (keep bs m) (retain_true m) hi
unfolding retain_true
keep-Laid lo [] [] hi l = l
keep-Laid lo (b ∷ bs) ((k, true) ∷ m) hi (c, e, p, l) =
    (c, e, p, keep-Laid (b.off + b.len) bs m hi l)
keep-Laid lo (b ∷ bs) ((k, false) ∷ m) hi (c, e, p, l) =
    Laid-weaken lo (b.off + b.len) _ _ hi (omega arith) (keep-Laid (b.off + b.len) bs m hi l)
keep-Laid lo [] (f ∷ m) hi l = absurd l
keep-Laid lo (b ∷ bs) [] hi l = absurd l

view-keep :
    (lo : ℕ) (bs : List RangeBuf) (m : List (ℕ × Bool)) (hi : ℕ)
    → Laid lo bs m hi
    → view (keep bs m) (retain_true m) ≡ drop_acked (view bs m)
unfolding retain_true
view-keep lo [] [] hi l = refl
view-keep lo (b ∷ bs) ((k, true) ∷ m) hi (c, e, p, l) =
    ap (λ es. record { offset = b.off; content = b.bytes; pending = true } ∷ es)
      (view-keep (b.off + b.len) bs m hi l)
view-keep lo (b ∷ bs) ((k, false) ∷ m) hi (c, e, p, l) = view-keep (b.off + b.len) bs m hi l
view-keep lo [] (f ∷ m) hi l = absurd l
view-keep lo (b ∷ bs) [] hi l = absurd l

-- the state that `recv_and_drop` leaves
abbrev pub dropped : SendBuf → SendBuf
dropped s = record s {
  chunks = keep s.chunks s.offset_recv;
  offset_recv = retain_true s.offset_recv;
}

nothing_kept :
    (lo : ℕ) (bs : List RangeBuf) (m : List (ℕ × Bool)) (hi : ℕ)
    → is_nil bs ≡ true
    → Laid lo bs m hi
    → (bs ≡ keep bs m) × (m ≡ retain_true m)
unfolding retain_true
nothing_kept lo [] [] hi e l = (refl, refl)
nothing_kept lo [] (f ∷ m) hi e l = absurd l
nothing_kept lo (b ∷ bs) m hi e l = cc

recv_and_drop-dropped :
    (s : SendBuf) (max_ack : ℕ) → IsValid s → recv_and_drop s max_ack ≡ some (dropped s)
unfolding recv_and_drop
recv_and_drop-dropped s max_ack v = elim (Bool-cases (is_nil s.chunks)) [
  | inl none_left ↦
      let (p, q) = nothing_kept 0 s.chunks s.offset_recv s.off none_left v.laid in
      rw none_left (λ i. some (record s { chunks = p i; offset_recv = q i }))
  | inr some_left ↦ rw (some_left, retain-keep 0 s.chunks s.offset_recv s.off v.laid)
]

-- On a valid buffer `recv_and_drop` never panics: every chunk finds its flag. It removes exactly the
-- acknowledged packets from the window, keeps the order of the others and the invariant, and
-- touches no other field.
pub recv_and_drop_refines :
    {s : SendBuf} (max_ack : ℕ)
    → IsValid s
    → (recv_and_drop s max_ack ≡ some (dropped s))
      × IsValid (dropped s)
      × (window (dropped s) ≡ drop_acked (window s))
recv_and_drop_refines {s} max_ack v = (
  recv_and_drop-dropped s max_ack v,
  record { laid = keep-Laid 0 s.chunks s.offset_recv s.off v.laid; off_u64 = v.off_u64 },
  view-keep 0 s.chunks s.offset_recv s.off v.laid,
)
