-- ===== src/RecvBuf/Insert.antt =====
-- `RecvBuf::write`.
use dmludp.Prelude.{
  ℕ, ◌+◌, ◌<◌, ◌≡◌, if◌then◌else◌, ◌==◌, List, length, arith, u64_mod, some, none, ◌≢◌, sub64, ◌≤◌,
}
use dmludp.Prelude.Maps.{
  lookup, tree_insert, lookup-tree_insert_self, lookup-tree_insert_ne, last_key,
}
use dmludp.Error.{ok}
use dmludp.RangeBuf.{from as range_from, len as range_len, max_off as range_max_off}
use dmludp.RecvBuf.{RecvBuf, mark_in_order, write}

-- the highest offset behind which nothing was missing when its chunk arrived
abbrev pub next_mark : RecvBuf → ℕ → ℕ
next_mark r off = elim (last_key r.chunks) [
  | none ↦ r.max_recv_off
  | some k ↦ if k == off then off else r.max_recv_off
]

mark_in_order_lem :
    (r : RecvBuf) (off : ℕ) → mark_in_order r off ≡ record r { max_recv_off = next_mark r off }
unfolding mark_in_order
mark_in_order_lem r off = ground arith

-- the state after a chunk has arrived
abbrev pub received : RecvBuf → List ℕ → ℕ → RecvBuf
received r bytes off = record r {
  max_recv_off = next_mark r off;
  chunks = tree_insert (off + length bytes) (range_from bytes off) r.chunks;
}

module _ (bytes : List ℕ) (off : ℕ) (h : off + length bytes < u64_mod) where
  from-len : range_len (range_from bytes off) ≡ some (length bytes)
  unfolding range_len range_from
  from-len = ground arith

  from-max_off : range_max_off (range_from bytes off) ≡ some (off + length bytes)
  unfolding range_max_off range_from
  from-max_off = ground arith

  tmp_off : sub64 (off + length bytes) (length bytes) ≡ some off
  tmp_off = ground arith

  -- A chunk whose end is below 2 ^ 64 is stored under its final offset, whatever is there: it can
  -- be looked up, in place of an older chunk with the same end, and the other chunks stay. The
  -- mark that `max_ack` reports moves to the chunk's offset exactly if the chunk continues the
  -- highest one that is stored.
  pub write_lem :
      (r : RecvBuf)
      → (write r bytes off ≡ some (ok tt, received r bytes off))
        × (lookup (off + length bytes) (received r bytes off).chunks ≡ some (range_from bytes off))
        × ((k : ℕ)
            → off + length bytes ≢ k
            → lookup k (received r bytes off).chunks ≡ lookup k r.chunks)
  unfolding write
  write_lem r = (
    rw (from-len, from-max_off, tmp_off, mark_in_order_lem),
    lookup-tree_insert_self (off + length bytes) (range_from bytes off) r.chunks,
    λ k ne. lookup-tree_insert_ne (off + length bytes) k (range_from bytes off) r.chunks ne,
  )

-- A chunk that would end at 2 ^ 64 or behind it makes `write` panic; the offset comes from the peer.
pub write_panics :
    (r : RecvBuf) (bytes : List ℕ) (off : ℕ)
    → u64_mod ≤ off + length bytes
    → write r bytes off ≡ none
unfolding write range_from range_len range_max_off
write_panics r bytes off h = ground arith
