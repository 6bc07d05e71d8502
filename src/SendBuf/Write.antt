-- ===== src/SendBuf/Write.antt =====
-- `SendBuf::write` against the abstract window.
use dmludp.Prelude.{
  ℕ, ◌+◌, ◌-◌, ◌≤◌, ◌<◌, ◌≡◌, ap, sym, ◌∙◌, Bool, min, List, [], ◌∷◌, ◌++◌, length, take, arith,
  u64_mod, some, none, concat, length-take, Sized, ◌⊎◌,
}
use dmludp.Error.{ok}
use dmludp.RangeBuf.{RangeBuf}
use dmludp.SendBuf.{SendBuf, total, write}
use dmludp.SendBuf.Window.{Laid, IsValid, window, drop_acked}
use dmludp.SendBuf.Ack.{dropped, recv_and_drop_refines}
use dmludp.SendBuf.Push.{fresh, size, push_all, HasRoom, Pushed, push_all-Pushed}
use dmludp.SendBuf.Pieces.{
  pieces, load, load-append, load-fresh, load-view, concat-pieces, pieces-Sized, size-pieces,
}
use dmludp.SendBuf.Cut.{begun, begun-IsValid, write-push_all}

-- What `write` makes of a valid buffer, as its user sees it: `n` bytes of `d` are accepted.
pub record Wrote (s : SendBuf) (d : List ℕ) (window_size off_len n : ℕ) (s' : SendBuf)
    : Type 0 where
  -- the acknowledged packets are gone, and the bytes follow as new packets, all waiting
  pub seen : window s' ≡ drop_acked (window s) ++ fresh s.off (pieces (take n d) off_len)
  -- the new packets carry the accepted bytes in order, 1 to 1024 each
  pub complete : concat (pieces (take n d) off_len) ≡ take n d
  pub sized : Sized 1024 (pieces (take n d) off_len)
  pub off_moved : s'.off ≡ s.off + n
  -- `len` and `used_length` count the bytes in the window
  pub len_exact : s'.len ≡ load (window s')
  pub used_exact : s'.used_length ≡ load (window s')
  pub max_data_set : s'.max_data ≡ window_size
  pub sent_reset : s'.sent ≡ 0
  pub same_pos : s'.pos ≡ s.pos
  pub same_error : s'.error ≡ s.error

Laid-total :
    (lo : ℕ) (bs : List RangeBuf) (m : List (ℕ × Bool)) (hi : ℕ)
    → Laid lo bs m hi
    → lo + total bs ≤ hi
Laid-total lo [] [] hi l = omega arith
Laid-total lo (b ∷ bs) ((k, v) ∷ m) hi (c, e, p, l) =
    omega (arith, Laid-total (b.off + b.len) bs m hi l, c.whole)
Laid-total lo [] (f ∷ m) hi l = absurd l
Laid-total lo (b ∷ bs) [] hi l = absurd l

Pushed-Wrote :
    (s s' : SendBuf) (d : List ℕ) (window_size off_len n : ℕ)
    → off_len ≤ 1024
    → n ≤ length d
    → window (dropped s) ≡ drop_acked (window s)
    → total (dropped s).chunks ≡ load (drop_acked (window s))
    → Pushed (begun s window_size) (pieces (take n d) off_len) s'
    → Wrote s d window_size off_len n s'
Pushed-Wrote s s' d window_size off_len n small fits shown loaded p = record {
  seen = seen;
  complete = concat-pieces (take n d) off_len;
  sized = pieces-Sized (take n d) off_len small;
  off_moved = omega (arith, p.off_moved, count);
  len_exact = p.len_grown ∙ sym (loads p.len_grown);
  used_exact = p.used_grown ∙ sym (loads p.len_grown);
  max_data_set = p.same_max_data;
  sent_reset = p.same_sent;
  same_pos = p.same_pos;
  same_error = p.same_error;
}
  where
    cs : List (List ℕ)
    cs = pieces (take n d) off_len

    count : size cs ≡ n
    count = size-pieces (take n d) off_len ∙ length-take n d ∙ omega arith

    seen : window s' ≡ drop_acked (window s) ++ fresh s.off cs
    seen = p.seen ∙ ap (λ es. es ++ fresh s.off cs) shown

    loads :
        s'.len ≡ total (dropped s).chunks + size cs
        → load (window s') ≡ total (dropped s).chunks + size cs
    loads e =
        ap load seen
        ∙ load-append (drop_acked (window s)) (fresh s.off cs)
        ∙ omega (arith, load-fresh s.off cs, loaded)

-- On a valid buffer that was not stopped, `write` never panics and never fails. It drops what is
-- acknowledged, and then accepts as many bytes as the window of `window_size` has room for, none
-- if the packets still waiting fill it; the invariant is kept. (Conditions: `off_len` is at most
-- 1024, and the offset of the last byte stays below 2 ^ 64.)
pub write_refines :
    {s : SendBuf} (d : List ℕ) (window_size off_len max_ack : ℕ)
    → IsValid s
    → s.error ≡ none
    → off_len ≤ 1024
    → window_size < u64_mod
    → length d < u64_mod
    → s.off + length d < u64_mod
    → let n = min (length d) (window_size - load (drop_acked (window s))) in
      (s' : SendBuf) × (write s d window_size off_len max_ack ≡ some (ok n, s'))
      × IsValid s'
      × Wrote s d window_size off_len n s'
write_refines {s} d window_size off_len max_ack v running small w64 d64 o64 =
    let n : ℕ = min (length d) (window_size - load (drop_acked (window s))) in
    let (dropping, kept, shown) = recv_and_drop_refines max_ack v in
    let loaded : total (dropped s).chunks ≡ load (drop_acked (window s)) =
      load-view 0 (dropped s).chunks (dropped s).offset_recv s.off kept.laid ∙ ap load shown in
    let count : size (pieces (take n d) off_len) ≡ n =
      size-pieces (take n d) off_len ∙ length-take n d ∙ omega arith in
    let p =
      push_all-Pushed (begun s window_size) (pieces (take n d) off_len)
        (begun-IsValid s d window_size off_len max_ack v) (pieces-Sized (take n d) off_len small)
        (room (dropped s) kept (size (pieces (take n d) off_len)) (omega (arith, count))
          (omega (arith, count, loaded))) in
    (
      push_all (begun s window_size) (pieces (take n d) off_len),
      write-push_all s d window_size off_len max_ack v running small w64 d64 o64
          ∙ ap
              (λ k. some (
                ok (min (length d) (window_size - k)),
                push_all (begun s window_size)
                    (pieces (take (min (length d) (window_size - k)) d) off_len),
              ))
              loaded,
      p.valid,
      Pushed-Wrote s _ d window_size off_len n small (omega arith) shown loaded p,
    )
  where
    room :
        (t : SendBuf)
        → IsValid t
        → (n : ℕ) → t.off + n < u64_mod
        → (total t.chunks + n < u64_mod) ⊎ (n ≡ 0)
        → HasRoom
            (record t {
              max_data = window_size;
              removed = 0;
              sent = 0;
              len = total t.chunks;
              used_length = total t.chunks;
            })
            n
    room t vt n o l = omega (arith, Laid-total 0 t.chunks t.offset_recv t.off vt.laid, vt.off_u64)
