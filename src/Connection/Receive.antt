-- ===== src/Connection/Receive.antt =====
-- The receiving half of `Connection` of src/lib.rs: `recv_slice` and what it calls.
use dmludp.Prelude.{
  ℕ, zero, suc, ◌*◌, ◌/◌, ◌==◌, ltb, Bool, true, false, ◌&&◌, not, if◌then◌else◌, Option, some,
  none, List, [], ◌∷◌, length, drop, add64, slice, slice_to, slice_from, from_be_bytes, ◌>>=◌,
}
use dmludp.Prelude.Maps.{lookup, hash_insert, contains_key}
use dmludp.Error.{Result, ok, err, buffer_too_short, stopped}
use dmludp.Floats.{Floats}
use dmludp.Octets.{Octets}
use dmludp.Packet.{PacketType, Header, from_slice, handshake, application, elict_ack, ack, stop}
use dmludp.SendBuf.{ack_and_drop}
use dmludp.RecvBuf.{write as buffer_write}
use dmludp.Recovery.{update_win}
use dmludp.Connection.{Connection, update_rtt, priority_calculation}
use dmludp.Connection.Send.{header_length}

-- The loop of `check_loss`. Every round reads 8 bytes, so that there are at most as many rounds as
-- the slice has bytes, which the caller gives as `rounds`.
unfoldable pub check_loop :
    (o : Octets) → ℕ → o.Buf → List (ℕ × ℕ) → List (ℕ × ℕ) → Option (List (ℕ × ℕ))
check_loop o zero b dic m = if ltb 0 (o.cap b) then none else some m
check_loop o (suc rounds) b dic m =
    if ltb 0 (o.cap b)
    then (do
      (offset, b') ← o.get_u64 b
      check_loop o rounds b' dic (hash_insert offset (if contains_key offset dic then 0 else 1) m))
    else some m

module _ (f : Floats) where
  unfoldable pub check_loss : Octets → Connection f → List ℕ → Option (Connection f)
  check_loss o c recv_buf = do
    m ← check_loop o (length recv_buf) (o.with_slice recv_buf) c.recv_dic c.recv_hashmap
    some (record c { recv_hashmap = m })

  unfoldable pub drop_packet : Connection f → ℕ → Connection f
  drop_packet c offset = record c { send_buffer = ack_and_drop c.send_buffer offset }

  -- the packet may not be sent again
  unfoldable pub drop_spent : Connection f → ℕ → Connection f
  unfolding drop_packet
  drop_spent c unack = elim (lookup unack c.sent_dic) [
    | none ↦ c
    | some received ↦ if received == 0 then drop_packet c unack else c
  ]

  -- the weight of a packet of this priority, and the drop of one that has arrived
  unfoldable pub weigh : Connection f → ℕ → ℕ → f.F32 → f.F32 × Connection f
  unfolding drop_packet
  weigh c unack priority weights =
      if priority == 1
      then (f.add32 weights (f.lit32 15 2), c)
      else if priority == 2
      then (f.add32 weights (f.lit32 2 1), c)
      else if priority == 3
      then (f.add32 weights (f.lit32 25 2), c)
      else (weights, drop_packet c unack)

  unfoldable pub count_high : Connection f → Bool → Option (Connection f)
  count_high c high =
      if high
      then (do n ← add64 c.high_priority 1; some (record c { high_priority = n }))
      else some c

  -- one round of the loop of `process_ack`
  unfoldable pub ack_entry : Connection f → ℕ → ℕ → f.F32 → Option (f.F32 × Connection f)
  unfolding drop_spent weigh count_high
  ack_entry c unack reported weights = do
    let c1 = drop_spent c unack
    priority ← if reported == 0 then some 0 else priority_calculation f c1 unack
    let (weights', c2) = weigh c1 unack priority weights
    real_priority ← priority_calculation f c2 unack
    c3 ← count_high c2 (not (priority == 0) && (real_priority == 3))
    some (weights', c3)

  -- The loop, on the bytes behind the mark: 16 in each round.
  unfoldable pub ack_loop : ℕ → Connection f → List ℕ → f.F32 → Option (f.F32 × Connection f)
  ack_loop rounds c [] weights = some (weights, c)
  ack_loop zero c (x ∷ rest) weights = none
  ack_loop (suc rounds) c (x ∷ rest) weights = do
    unack ← slice_to (x ∷ rest) 8
    reported ← slice (x ∷ rest) 8 16
    (weights', c') ← ack_entry c (from_be_bytes unack) (from_be_bytes reported) weights
    ack_loop rounds c' (drop 16 (x ∷ rest)) weights'

  unfoldable pub process_ack : Connection f → List ℕ → Option (Connection f)
  process_ack c buf = do
    unackbuf ← slice_from buf header_length
    mark ← slice_to unackbuf 8
    let max_ack = from_be_bytes mark
    let c1 = if ltb c.max_off max_ack then record c { max_off = max_ack } else c
    (weights, c2) ← ack_loop (length unackbuf) c1 (drop 8 unackbuf) (f.lit32 0 0)
    recovery ← update_win f c2.recovery weights (f.of_usize (length unackbuf / (8 * 2)))
    some (record c2 { recovery = recovery })

  -- the branches of `recv_slice`
  unfoldable pub recv_handshake : Connection f → ℕ → Connection f
  unfolding update_rtt
  recv_handshake c now =
      if c.is_server
      then record (update_rtt f c now) { handshake_completed = true }
      else record c { handshake_confirmed = false; feed_back = true }

  unfoldable pub recv_request : Octets → Connection f → List ℕ → Option (Connection f)
  unfolding check_loss
  recv_request o c buf = do
    num ← slice buf 1 9
    payload ← slice_from buf header_length
    c1 ← check_loss o (record c { recv_flag = true; send_num = from_be_bytes num }) payload
    some (record c1 { feed_back = true })

  unfoldable pub recv_application :
      Connection f → Header → List ℕ → Option (Result ℕ × Connection f)
  recv_application c hdr buf = do
    recv_count ← add64 c.recv_count 1
    payload ← slice_from buf header_length
    (r, buffer) ← buffer_write c.rec_buffer payload hdr.offset
    elim r [
      | err e ↦ none
      | ok _ ↦ some (
        ok hdr.pkt_length,
        record c {
          recv_count = recv_count;
          rec_buffer = buffer;
          recv_dic = hash_insert hdr.offset hdr.priority c.recv_dic;
        },
      )
    ]

  unfoldable pub recv_packet :
      Octets → Connection f → PacketType → Header → List ℕ → ℕ → Option (Result ℕ × Connection f)
  unfolding recv_handshake recv_request recv_application process_ack
  recv_packet o c handshake hdr buf now = some (ok 0, recv_handshake c now)
  recv_packet o c ack hdr buf now =
      if c.is_server then (do c1 ← process_ack c buf; some (ok 0, c1)) else some (ok 0, c)
  recv_packet o c elict_ack hdr buf now = do c1 ← recv_request o c buf; some (ok 0, c1)
  recv_packet o c application hdr buf now = recv_application c hdr buf
  recv_packet o c stop hdr buf now = some (err stopped, c)
  recv_packet o c _ hdr buf now = some (ok 0, c)

  unfoldable pub recv_slice : Octets → Connection f → List ℕ → ℕ → Option (Result ℕ × Connection f)
  unfolding recv_packet
  recv_slice o c buf now = if length buf == 0 then some (err buffer_too_short, c) else (do
    recv_count ← add64 c.recv_count 1
    let c1 = record c { recv_count = recv_count }
    elim (from_slice o buf) [
      | err e ↦ some (err e, c1)
      | ok hdr ↦ recv_packet o c1 hdr.ty hdr buf now
    ])
