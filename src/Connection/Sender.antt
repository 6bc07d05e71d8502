-- ===== src/Connection/Sender.antt =====
-- What a sender of src/lib.rs keeps from round to round, and what `write` makes of it.
use dmludp.Prelude.{
  ℕ, ◌+◌, ◌-◌, ◌%◌, ◌≤◌, ◌<◌, ◌≡◌, refl, ap, sym, ◌∙◌, subst, true, List, length, drop, length-drop,
  min, some, none, arith, u64_mod, slice_from-some, add64-some,
}
use dmludp.Error.{ok}
use dmludp.Floats.{Floats}
use dmludp.SendBuf.{SendBuf}
use dmludp.SendBuf.Window.{IsValid, window, drop_acked}
use dmludp.SendBuf.Write.{Wrote, write_refines}
use dmludp.SendBuf.Pieces.{load}
use dmludp.SendBuf.Blocks.{AllInBlock, AllInBlock-append, AllInBlock-drop_acked, pieces-AllInBlock}
use dmludp.Recovery.{Recovery}
use dmludp.Connection.{Connection}
use dmludp.Connection.Fill.{first_piece, write, write_counted}
use dmludp.Connection.NextWindow.{HasWindow, next_window_lem, first_piece_lem}

module _ (f : Floats) where
  -- What a sender keeps from round to round: its buffer ends where the bytes that are not yet taken
  -- begin, and no packet crosses the border of a block.
  pub record IsSender (c : Connection f) : Type 0 where
    pub valid : IsValid c.send_buffer
    pub running : c.send_buffer.error ≡ none
    pub aligned : c.send_buffer.off ≡ c.total_offset
    pub counted : c.total_offset ≡ c.written_data
    pub within : c.written_data ≤ length c.send_data
    pub data_u64 : length c.send_data < u64_mod
    pub blocks : AllInBlock (window c.send_buffer)

  -- the bytes that are not yet taken, and how many of them a window of `w` bytes takes
  abbrev pub left : Connection f → List ℕ
  left c = drop c.written_data c.send_data

  abbrev pub taken : Connection f → ℕ → ℕ
  taken c w = min (length (left c)) (w - load (drop_acked (window c.send_buffer)))

  write_fills :
      (c : Connection f)
      → IsSender c
      → HasWindow f c
      → (w : ℕ) × (r : Recovery f) × (s : SendBuf) × (write f c
          ≡ some (
            ok (taken c w),
            record c { high_priority = 0; sent_number = 0; recovery = r; send_buffer = s },
          ))
        × (w < u64_mod)
        × IsValid s
        × Wrote c.send_buffer (left c) w (first_piece f c.total_offset) (taken c w) s
  unfolding write
  write_fills c v h =
      let (w, r, w64, opens) = next_window_lem f c h in
      let (small, _) = first_piece_lem f c.total_offset in
      let (s, run, valid, wrote) =
        write_refines (left c) w (first_piece f c.total_offset) c.max_off v.valid v.running
          (omega (arith, small)) w64
          (omega (arith, length-drop c.written_data c.send_data, v.data_u64))
          (omega (
            arith,
            length-drop c.written_data c.send_data,
            v.data_u64,
            v.aligned,
            v.counted,
            v.within,
          )) in
      (
        w,
        r,
        s,
        rw (opens, slice_from-some c.send_data c.written_data v.within, run) refl,
        w64,
        valid,
        wrote,
      )

  -- the state behind a round
  abbrev pub filled : Connection f → ℕ → Recovery f → SendBuf → Connection f
  filled c w r s = record c {
    high_priority = 0;
    sent_number = 0;
    recovery = r;
    send_buffer = s;
    written_data = c.written_data + taken c w;
    total_offset = c.total_offset + taken c w;
  }

  pub filled-IsSender :
      (c : Connection f) (w : ℕ) (r : Recovery f) (s : SendBuf)
      → IsSender c
      → IsValid s
      → Wrote c.send_buffer (left c) w (first_piece f c.total_offset) (taken c w) s
      → IsSender (filled c w r s)
  filled-IsSender c w r s v valid wrote =
      let (small, ends) = first_piece_lem f c.total_offset in
      record {
        valid = valid;
        running = wrote.same_error ∙ v.running;
        aligned = omega (arith, wrote.off_moved, v.aligned);
        counted = omega (arith, v.counted);
        within = omega (arith, length-drop c.written_data c.send_data, v.within);
        data_u64 = v.data_u64;
        blocks = subst AllInBlock (sym wrote.seen) (
            AllInBlock-append (drop_acked (window c.send_buffer)) _
              (AllInBlock-drop_acked (window c.send_buffer) v.blocks)
              (pieces-AllInBlock c.send_buffer.off (first_piece f c.total_offset) _ small
                (ap (λ n. (n + first_piece f c.total_offset) % 1024) v.aligned ∙ ends)));
      }

  -- the state behind a round, with what `write` does to the buffer
  pub record Fills (c c' : Connection f) : Type 0 where
    pub window_size : ℕ
    pub recovery : Recovery f
    pub buffer : SendBuf
    pub behind : c' ≡ filled c window_size recovery buffer
    pub window_u64 : window_size < u64_mod
    pub valid : IsValid buffer
    pub wrote :
        Wrote c.send_buffer
          (left c)
          window_size
          (first_piece f c.total_offset)
          (taken c window_size)
          buffer

  pub write_counted-Fills :
      (c : Connection f)
      → IsSender c
      → HasWindow f c
      → (c' : Connection f) × (write_counted f c ≡ some (ok true, c')) × Fills c c'
  unfolding write_counted
  write_counted-Fills c v h =
      let (w, r, s, run, w64, valid, wrote) = write_fills c v h in
      (
        filled c w r s,
        rw
            (
              run,
              add64-some c.written_data (taken c w)
                  (omega (arith, length-drop c.written_data c.send_data, v.data_u64, v.within)),
              add64-some c.total_offset (taken c w) (
                  omega (
                    arith,
                    length-drop c.written_data c.send_data,
                    v.data_u64,
                    v.within,
                    v.counted,
                  )),
            )
            refl,
        record {
          window_size = w;
          recovery = r;
          buffer = s;
          behind = refl;
          window_u64 = w64;
          valid = valid;
          wrote = wrote;
        },
      )
