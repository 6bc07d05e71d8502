-- ===== src/SendBuf/Tests.antt =====
-- The theorems on `SendBuf` at concrete buffers.
use dmludp.Prelude.{
  ℕ, ◌≡◌, refl, List, [], ◌∷◌, ◌++◌, true, false, none, some, replicate, drop, length, arith, ◌≤◌,
}
use dmludp.Error.{ok}
use dmludp.RangeBuf.{RangeBuf}
use dmludp.SendBuf.{SendBuf, write, emit, recv_and_drop, ack_and_drop}
use dmludp.SendBuf.Window.{IsChunk, IsValid, window, ack, drop_acked}
use dmludp.SendBuf.Ack.{dropped, ack_and_drop_refines, recv_and_drop_refines}
use dmludp.SendBuf.Push.{fresh}
use dmludp.SendBuf.Pieces.{pieces}
use dmludp.SendBuf.Write.{Wrote, write_refines}
use dmludp.SendBuf.Emit.{stops, sent_chunk, emit_lem}
use dmludp.SendBuf.Drain.{drain, packets}
use dmludp.SendBuf.Round.{AtStart, drain-window, write_then_drain}

abbrev first_chunk : RangeBuf
first_chunk = record { bytes = 7 ∷ 8 ∷ 9 ∷ []; start = 0; pos = 0; len = 3; off = 0 }

abbrev second_chunk : RangeBuf
second_chunk = record { bytes = 5 ∷ 6 ∷ []; start = 0; pos = 0; len = 2; off = 3 }

-- two chunks, of which the first is acknowledged
abbrev half_acked : SendBuf
half_acked = record {
  chunks = first_chunk ∷ second_chunk ∷ [];
  pos = 0;
  off = 5;
  len = 5;
  max_data = 2048;
  error = none;
  used_length = 5;
  offset_recv = (0, false) ∷ (3, true) ∷ [];
  removed = 0;
  sent = 0;
}

first_chunk-IsChunk : IsChunk first_chunk
first_chunk-IsChunk = omega arith

second_chunk-IsChunk : IsChunk second_chunk
second_chunk-IsChunk = omega arith

half_acked-IsValid : IsValid half_acked
half_acked-IsValid = record {
  laid = (
    first_chunk-IsChunk,
    refl,
    omega arith,
    (second_chunk-IsChunk, refl, omega arith, omega arith),
  );
  off_u64 = omega arith;
}

half_acked-AtStart : AtStart half_acked
half_acked-AtStart = record {
  valid = half_acked-IsValid;
  first = refl;
  none_sent = refl;
  len_exact = refl;
  used_exact = refl;
  fits = omega arith;
  max_u64 = omega arith;
}

-- the buffer that `emit` fills
abbrev room : List ℕ
room = replicate 1024 0

room_long : 1024 ≤ length room
room_long = omega arith

write_then_drain_example :
    let es = drop_acked (window half_acked) ++ fresh 5 (pieces (1 ∷ 2 ∷ []) 0) in
    (s' s'' : SendBuf) × (write half_acked (1 ∷ 2 ∷ []) 2048 0 3 ≡ some (ok 2, s'))
    × (drain (length es) s' room ≡ some (packets es, s''))
    × (window s'' ≡ es)
write_then_drain_example =
    write_then_drain half_acked (1 ∷ 2 ∷ []) room 2048 0 3 half_acked-IsValid refl refl
      (omega arith) (omega arith) (omega arith) (omega arith) (omega arith) room_long (omega arith)

write_refines_example :
    (s' : SendBuf) × (write half_acked (1 ∷ 2 ∷ []) 3 0 3 ≡ some (ok 1, s'))
    × IsValid s'
    × Wrote half_acked (1 ∷ 2 ∷ []) 3 0 1 s'
write_refines_example =
    write_refines (1 ∷ 2 ∷ []) 3 0 3 half_acked-IsValid refl (omega arith) (omega arith)
      (omega arith) (omega arith)

recv_and_drop_refines_example :
    (recv_and_drop half_acked 3 ≡ some (dropped half_acked))
    × IsValid (dropped half_acked)
    × (window (dropped half_acked) ≡ drop_acked (window half_acked))
recv_and_drop_refines_example = recv_and_drop_refines 3 half_acked-IsValid

ack_and_drop_refines_example :
    IsValid (ack_and_drop half_acked 3)
    × (window (ack_and_drop half_acked 3) ≡ ack 3 (window half_acked))
ack_and_drop_refines_example = ack_and_drop_refines 3 half_acked-IsValid

drain-window_example :
    (s' : SendBuf) × (drain 2 half_acked room
      ≡ some ((7 ∷ 8 ∷ 9 ∷ [], 0, false) ∷ (5 ∷ 6 ∷ [], 3, true) ∷ [], s'))
    × (s'.pos ≡ 0)
    × (s'.len ≡ 0)
    × (window s' ≡ window half_acked)
drain-window_example = drain-window half_acked room half_acked-AtStart (omega arith) room_long

emit_lem_example :
    emit half_acked room
    ≡ some (
      ok (3, 0, stops half_acked first_chunk),
      sent_chunk half_acked first_chunk (stops half_acked first_chunk),
      7 ∷ 8 ∷ 9 ∷ drop 3 room,
    )
emit_lem_example =
    emit_lem half_acked first_chunk (second_chunk ∷ []) room first_chunk-IsChunk refl (omega arith)
      (omega arith) (omega arith) room_long (omega arith) (omega arith)
