-- ===== src/RecvBuf/Tests.antt =====
-- The theorems on `RecvBuf` at concrete buffers.
use dmludp.Prelude.{ℕ, ◌≡◌, ◌≢◌, refl, List, [], ◌∷◌, none, some, arith}
use dmludp.Prelude.Maps.{lookup}
use dmludp.Error.{ok}
use dmludp.RangeBuf.{RangeBuf, from as range_from}
use dmludp.RecvBuf.{RecvBuf, new, write, emit, reset}
use dmludp.RecvBuf.Insert.{received, write_lem, write_panics}
use dmludp.RecvBuf.Read.{IsWhole, emit_counts_gaps, emit_reports_none}
use dmludp.RecvBuf.Partial.{holding, partial_read_repeats}
use dmludp.RecvBuf.Reset.{here, next, was_reset, reset_accepts_all}

abbrev three_bytes : RangeBuf
three_bytes = record { bytes = 7 ∷ 8 ∷ 9 ∷ []; start = 0; pos = 0; len = 3; off = 0 }

abbrev two_bytes : RangeBuf
two_bytes = record { bytes = 5 ∷ 6 ∷ []; start = 0; pos = 0; len = 2; off = 4 }

three_bytes-IsWhole : IsWhole three_bytes
three_bytes-IsWhole = omega arith

two_bytes-IsWhole : IsWhole two_bytes
two_bytes-IsWhole = omega arith

-- one byte is missing between the two chunks
abbrev with_gap : RecvBuf
with_gap = record {
  chunks = (3, three_bytes) ∷ (6, two_bytes) ∷ [];
  off = 0;
  len = 0;
  last_maxoff = 0;
  max_recv_off = 0;
}

abbrev without_gap : RecvBuf
without_gap = record with_gap { chunks = (3, three_bytes) ∷ [] }

abbrev out4 : List ℕ
out4 = 0 ∷ 0 ∷ 0 ∷ 0 ∷ []

emit_counts_gaps_example :
    emit with_gap out4
    ≡ some (ok 1, record with_gap { chunks = []; last_maxoff = 6 }, 7 ∷ 5 ∷ 6 ∷ 0 ∷ [])
emit_counts_gaps_example =
    emit_counts_gaps with_gap out4 refl
      (
        three_bytes-IsWhole,
        omega arith,
        omega arith,
        omega arith,
        (two_bytes-IsWhole, omega arith, omega arith, omega arith, tt),
      )
      (omega arith)

emit_reports_none_example :
    (r' : RecvBuf) × (out' : List ℕ) × (emit without_gap out4 ≡ some (ok 0, r', out'))
    × (r'.chunks ≡ [])
emit_reports_none_example =
    emit_reports_none without_gap out4 refl
      (three_bytes-IsWhole, omega arith, omega arith, omega arith, tt) (refl, tt) (omega arith)

partial_read_repeats_example :
    (emit (holding new 3 three_bytes 0) (0 ∷ 0 ∷ [])
      ≡ some (ok 0, holding new 3 three_bytes 2, 7 ∷ 8 ∷ []))
    × (emit (holding new 3 three_bytes 2) out4
        ≡ some (ok 0, record new { chunks = []; last_maxoff = 3 }, 7 ∷ 0 ∷ 0 ∷ 0 ∷ []))
partial_read_repeats_example =
    partial_read_repeats new 3 three_bytes three_bytes-IsWhole (0 ∷ 0 ∷ []) out4 (omega arith)
      (omega arith) (omega arith)

write_lem_example :
    (write with_gap (1 ∷ 2 ∷ []) 6 ≡ some (ok tt, received with_gap (1 ∷ 2 ∷ []) 6))
    × (lookup 8 (received with_gap (1 ∷ 2 ∷ []) 6).chunks ≡ some (range_from (1 ∷ 2 ∷ []) 6))
    × ((k : ℕ)
        → 8 ≢ k
        → lookup k (received with_gap (1 ∷ 2 ∷ []) 6).chunks ≡ lookup k with_gap.chunks)
write_lem_example = write_lem (1 ∷ 2 ∷ []) 6 (omega arith) with_gap

write_panics_example : write new (1 ∷ []) 18446744073709551615 ≡ none
write_panics_example = write_panics new (1 ∷ []) 18446744073709551615 (omega arith)

reset_accepts_all_example : (reset (reset new 9).1 5).0 ≡ ok 5
reset_accepts_all_example = reset_accepts_all 5 (next here (was_reset 9))
