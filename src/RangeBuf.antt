-- ===== src/RangeBuf.antt =====
-- `RangeBuf` of src/lib.rs: a chunk of bytes of the stream, with the offset at which it stands.
pub mod Split
mod Tests
use dmludp.Prelude.{
  ℕ, ◌+◌, ◌==◌, Bool, if◌then◌else◌, Option, some, none, List, length, leb, min, add64, sub64,
  slice, slice_from, ◌>>=◌, arith, ◌≡◌, ◌≤◌, ◌<◌, IsU64, u64_mod, take, drop,
}

-- `data` of the source is `bytes` here.
pub record RangeBuf : Type 0 where
  pub bytes : List ℕ
  pub start : ℕ
  pub pos : ℕ
  pub len : ℕ
  pub off : ℕ

unfoldable pub from : List ℕ → ℕ → RangeBuf
from buf off = record { bytes = buf; start = 0; pos = 0; len = length buf; off = off }

-- `(self.off - self.start) + self.pos`
unfoldable pub off : RangeBuf → Option ℕ
off b = do base ← sub64 b.off b.start; add64 base b.pos

-- `self.len - self.pos`
unfoldable pub len : RangeBuf → Option ℕ
len b = sub64 b.len b.pos

unfoldable pub max_off : RangeBuf → Option ℕ
unfolding off len
max_off b = do o ← off b; l ← len b; add64 o l

unfoldable pub is_empty : RangeBuf → Option Bool
unfolding len
is_empty b = do l ← len b; some (l == 0)

unfoldable pub consume : RangeBuf → ℕ → Option RangeBuf
consume b count = do pos ← add64 b.pos count; some (record b { pos = pos })

-- Returns the front, which replaces `self`, and the new buffer.
unfoldable pub split_off : RangeBuf → ℕ → Option (RangeBuf × RangeBuf)
split_off b at =
    if leb at b.len
    then (do
      bytes ← slice_from b.bytes at
      len ← sub64 b.len at
      off ← add64 b.off at
      end ← add64 b.start at
      some (
        record b { pos = min b.pos end; len = at },
        record { bytes = bytes; start = 0; pos = 0; len = len; off = off },
      ))
    else none

-- `&self.data[self.pos..self.start + self.len]`
unfoldable pub deref : RangeBuf → Option (List ℕ)
deref b = do end ← add64 b.start b.len; slice b.bytes b.pos end

-- What `from` makes, `consume` within the length and `split_off` keep.
pub record IsValid (b : RangeBuf) : Type 0 where
  pub starts : b.start ≡ 0
  pub consumed : b.pos ≤ b.len
  pub stored : b.len ≤ length b.bytes
  pub ends : b.off + b.len < u64_mod
