-- ===== src/SendBuf/Push.antt =====
-- What one round of `write`, and its loop, add to a valid buffer.
use dmludp.Prelude.{
  ℕ, ◌+◌, ◌≤◌, ◌<◌, ◌≡◌, refl, ap, sym, ◌∙◌, Bool, true, List, [], ◌∷◌, ◌++◌, length, arith,
  u64_mod, some, Sized, concat, append-nil, append_assoc, add64-some, length-append,
}
use native.Mathlib.Nat.{add-zero, add_assoc}
use dmludp.Prelude.Maps.{KeysBelow, tree_insert-append}
use dmludp.RangeBuf.{RangeBuf, from as range_from}
use dmludp.SendBuf.{SendBuf, push_chunk, write_loop}
use dmludp.SendBuf.Window.{Laid, IsValid, Entry, view, window, Laid-bounds}

-- the packets that the pieces `cs` become, from offset `o` on
abbrev pub fresh : ℕ → List (List ℕ) → List Entry
fresh o [] = []
fresh o (c ∷ cs) = record { offset = o; content = c; pending = true } ∷ fresh (o + length c) cs

abbrev pub size : List (List ℕ) → ℕ
size [] = 0
size (c ∷ cs) = length c + size cs

pub length-concat : (cs : List (List ℕ)) → length (concat cs) ≡ size cs
length-concat [] = refl
length-concat (c ∷ cs) = omega (arith, length-append c (concat cs), length-concat cs)

abbrev pub pushed : SendBuf → List ℕ → SendBuf
pushed s c = record s {
  chunks = s.chunks ++ (record { bytes = c; start = 0; pos = 0; len = length c; off = s.off } ∷ []);
  off = s.off + length c;
  len = s.len + length c;
  used_length = s.used_length + length c;
  offset_recv = s.offset_recv ++ ((s.off, true) ∷ []);
}

abbrev pub push_all : SendBuf → List (List ℕ) → SendBuf
push_all s [] = s
push_all s (c ∷ cs) = push_all (pushed s c) cs

Laid-KeysBelow :
    (lo : ℕ) (bs : List RangeBuf) (m : List (ℕ × Bool)) (hi : ℕ) → Laid lo bs m hi → KeysBelow hi m
Laid-KeysBelow lo [] [] hi l = tt
Laid-KeysBelow lo (b ∷ bs) ((k, v) ∷ m) hi (c, e, p, l) = (
  omega (arith, Laid-bounds (b.off + b.len) bs m hi l, c.not_empty),
  Laid-KeysBelow (b.off + b.len) bs m hi l,
)
Laid-KeysBelow lo [] (f ∷ m) hi l = absurd l
Laid-KeysBelow lo (b ∷ bs) [] hi l = absurd l

Laid-append :
    (lo : ℕ) (bs : List RangeBuf) (m : List (ℕ × Bool)) (hi : ℕ) (c : List ℕ)
    → Laid lo bs m hi
    → 0 < length c
    → length c ≤ 1024
    → Laid lo
        (bs ++ (record { bytes = c; start = 0; pos = 0; len = length c; off = hi } ∷ []))
        (m ++ ((hi, true) ∷ []))
        (hi + length c)
Laid-append lo [] [] hi c l p q = (
  record { starts = refl; untouched = refl; whole = refl; not_empty = p; not_large = q },
  refl,
  l,
  omega arith,
)
Laid-append lo (b ∷ bs) ((k, v) ∷ m) hi c (w, e, h, l) p q =
    (w, e, h, Laid-append (b.off + b.len) bs m hi c l p q)
Laid-append lo [] (f ∷ m) hi c l p q = absurd l
Laid-append lo (b ∷ bs) [] hi c l p q = absurd l

view-append :
    (lo : ℕ) (bs : List RangeBuf) (m : List (ℕ × Bool)) (hi : ℕ) (b' : RangeBuf) (f' : ℕ × Bool)
    → Laid lo bs m hi
    → view (bs ++ (b' ∷ [])) (m ++ (f' ∷ [])) ≡ view bs m ++ view (b' ∷ []) (f' ∷ [])
view-append lo [] [] hi b' f' l = refl
view-append lo (b ∷ bs) ((k, v) ∷ m) hi b' f' (w, e, h, l) =
    ap (λ es. record { offset = b.off; content = b.bytes; pending = v } ∷ es)
      (view-append (b.off + b.len) bs m hi b' f' l)
view-append lo [] (f ∷ m) hi b' f' l = absurd l
view-append lo (b ∷ bs) [] hi b' f' l = absurd l

-- The counters have room for `n` more bytes.
pub record HasRoom (s : SendBuf) (n : ℕ) : Type 0 where
  pub off_room : s.off + n < u64_mod
  pub len_room : s.len + n < u64_mod
  pub used_room : s.used_length + n < u64_mod

module _ (s : SendBuf) (c : List ℕ) (v : IsValid s) (room : HasRoom s (length c)) where
  pub push_chunk-pushed : push_chunk s c ≡ some (pushed s c)
  unfolding push_chunk range_from
  push_chunk-pushed = rw (
    add64-some s.off (length c) room.off_room,
    add64-some s.len (length c) room.len_room,
    add64-some s.used_length (length c) room.used_room,
    tree_insert-append s.off true s.offset_recv
        (Laid-KeysBelow 0 s.chunks s.offset_recv s.off v.laid),
  )

  pub pushed-IsValid : 0 < length c → length c ≤ 1024 → IsValid (pushed s c)
  pushed-IsValid p q = record {
    laid = Laid-append 0 s.chunks s.offset_recv s.off c v.laid p q;
    off_u64 = room.off_room;
  }

-- What `s'` has become of `s` when the pieces `cs` were added to it.
pub record Pushed (s : SendBuf) (cs : List (List ℕ)) (s' : SendBuf) : Type 0 where
  pub valid : IsValid s'
  pub seen : window s' ≡ window s ++ fresh s.off cs
  pub off_moved : s'.off ≡ s.off + size cs
  pub len_grown : s'.len ≡ s.len + size cs
  pub used_grown : s'.used_length ≡ s.used_length + size cs
  pub same_pos : s'.pos ≡ s.pos
  pub same_max_data : s'.max_data ≡ s.max_data
  pub same_sent : s'.sent ≡ s.sent
  pub same_error : s'.error ≡ s.error

pub push_all-Pushed :
    (s : SendBuf) (cs : List (List ℕ))
    → IsValid s
    → Sized 1024 cs
    → HasRoom s (size cs)
    → Pushed s cs (push_all s cs)
push_all-Pushed s [] v z room = record {
  valid = v;
  seen = sym (append-nil (window s));
  off_moved = omega arith;
  len_grown = omega arith;
  used_grown = omega arith;
  same_pos = refl;
  same_max_data = refl;
  same_sent = refl;
  same_error = refl;
}
push_all-Pushed s (c ∷ cs) v (p, q, z) room =
    let v' = pushed-IsValid s c v (omega arith) p q in
    let rec = push_all-Pushed (pushed s c) cs v' z (omega arith) in
    record {
      valid = rec.valid;
      seen =
          rec.seen
          ∙ ap (λ es. es ++ fresh (s.off + length c) cs)
              (view-append 0 s.chunks s.offset_recv s.off _ _ v.laid)
          ∙ append_assoc (window s) _ _;
      off_moved = omega (arith, rec.off_moved);
      len_grown = omega (arith, rec.len_grown);
      used_grown = omega (arith, rec.used_grown);
      same_pos = rec.same_pos;
      same_max_data = rec.same_max_data;
      same_sent = rec.same_sent;
      same_error = rec.same_error;
    }

pub write_loop-push_all :
    (s : SendBuf) (cs : List (List ℕ)) (n : ℕ)
    → IsValid s
    → Sized 1024 cs
    → HasRoom s (size cs)
    → n + size cs < u64_mod
    → write_loop s cs n ≡ some (n + size cs, push_all s cs)
unfolding write_loop
write_loop-push_all s [] n v z room h = ap (λ k. some (k, s)) (sym (add-zero n))
write_loop-push_all s (c ∷ cs) n v (p, q, z) room h =
    rw (push_chunk-pushed s c v (omega arith), add64-some n (length c) (omega arith))
      (write_loop-push_all (pushed s c) cs (n + length c) (pushed-IsValid s c v (omega arith) p q) z
          (omega arith) (omega arith)
        ∙ ap (λ k. some (k, push_all (pushed s c) cs)) (add_assoc n (length c) (size cs)))
