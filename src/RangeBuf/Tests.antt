-- ===== src/RangeBuf/Tests.antt =====
-- `split_off` of a chunk of five bytes, one of them consumed.
use dmludp.Prelude.{◌≡◌, ◌≤◌, ◌<◌, ◌-◌, refl, [], ◌∷◌, ◌++◌, take, drop, some, arith}
use dmludp.RangeBuf.{RangeBuf, IsValid, split_off, off, max_off}
use dmludp.RangeBuf.Split.{unread, front, back, split_off_lem}

abbrev chunk : RangeBuf
chunk = record { bytes = 1 ∷ 2 ∷ 3 ∷ 4 ∷ 5 ∷ []; start = 0; pos = 1; len = 5; off = 100 }

chunk-IsValid : IsValid chunk
chunk-IsValid = omega arith

split_off_lem_example :
    (split_off chunk 3 ≡ some (front chunk 3, back chunk 3))
    × IsValid (front chunk 3)
    × IsValid (back chunk 3)
    × (max_off (front chunk 3) ≡ off (back chunk 3))
    × (max_off (back chunk 3) ≡ max_off chunk)
    × (1 ≤ 3 → unread (front chunk 3) ++ unread (back chunk 3) ≡ unread chunk)
    × (3 < 1
        → unread (front chunk 3) ++ unread (back chunk 3)
          ≡ take (1 - 3) (drop 3 chunk.bytes) ++ unread chunk)
split_off_lem_example = split_off_lem 3 chunk-IsValid (omega arith)

-- Of a chunk with three consumed bytes, split behind the first, two are unread again.
consumed_again :
    unread (front (record chunk { pos = 3 }) 1) ++ unread (back (record chunk { pos = 3 }) 1)
    ≡ 2 ∷ 3 ∷ 4 ∷ 5 ∷ []
consumed_again = refl
