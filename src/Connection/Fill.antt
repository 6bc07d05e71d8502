-- ===== src/Connection/Fill.antt =====
-- The sending half of `Connection` of src/lib.rs: how `write` and `send_all` fill the send buffer for a
-- new round.
use dmludp.Prelude.{
  ℕ, ◌-◌, ◌%◌, ◌==◌, ltb, Bool, true, false, if◌then◌else◌, Option, some, none, length, add64,
  slice_from, ◌>>=◌,
}
use dmludp.Error.{Result, ok, err}
use dmludp.Floats.{Floats}
use dmludp.SendBuf.{is_nil, write as buffer_write}
use dmludp.Recovery.{rollback, cwnd}
use dmludp.Connection.{Connection, set_handshake}

module _ (f : Floats) where
  -- `self.high_priority as f64 / self.sent_number as f64 > CONGESTION_THREAHOLD`, and the window
  unfoldable pub next_window : Connection f → Option (ℕ × Connection f)
  next_window c =
      let high_ratio = f.div (f.of_usize c.high_priority) (f.of_usize c.sent_number) in
      let c1 = record c { high_priority = 0; sent_number = 0 } in
      if f.lt (f.lit 1 2) high_ratio
      then (let (w, r) = rollback f c1.recovery in some (w, record c1 { recovery = r }))
      else (do (w, r) ← cwnd f c1.recovery; some (w, record c1 { recovery = r }))

  -- how many bytes are missing to the next multiple of 1024
  unfoldable pub first_piece : ℕ → ℕ
  first_piece total_offset = if total_offset % 1024 == 0 then 0 else 1024 - total_offset % 1024

  unfoldable pub write : Connection f → Option (Result ℕ × Connection f)
  unfolding next_window first_piece
  write c = do
    (congestion_window, c1) ← next_window c
    rest ← slice_from c1.send_data c1.written_data
    (r, buffer) ←
        buffer_write c1.send_buffer rest congestion_window (first_piece c.total_offset) c1.max_off
    some (r, record c1 { send_buffer = buffer })

  -- `self.write()` and the two sums behind it, whose `unwrap` panics on an error
  unfoldable pub write_counted : Connection f → Option (Result Bool × Connection f)
  unfolding write
  write_counted c = do
    (r, c1) ← write c
    elim r [
      | err e ↦ none
      | ok n ↦ do
        written_data ← add64 c1.written_data n
        total_offset ← add64 c1.total_offset n
        some (ok true, record c1 { written_data = written_data; total_offset = total_offset })
    ]

  unfoldable pub send_all : Connection f → ℕ → Option (Result Bool × Connection f)
  unfolding write_counted set_handshake
  send_all c now =
      let c1 = set_handshake f (record c { stop_flag = false; stop_ack = false }) now in
      if ltb c1.written_data (length c1.send_data)
      then write_counted c1
      else if is_nil c1.send_buffer.chunks
      then some (ok false, c1)
      else write_counted c1
