-- ===== src/Connection/RoundTests.antt =====
-- The theorems on a round and on the handshake at concrete states.
use dmludp.Prelude.{
  ◌⊎◌, ℕ, ◌≡◌, refl, List, [], true, false, Bool, Option, some, none, replicate, arith, take,
}
use dmludp.Error.{Result, ok}
use dmludp.Floats.Example.{hundredths}
use dmludp.Octets.Example.{sides, sides-OctetsLaws}
use dmludp.SendBuf.{new as new_send_buf, write as buffer_write}
use dmludp.Connection.{Connection}
use dmludp.Connection.Send.{send_data}
use dmludp.Connection.Receive.{recv_slice}
use dmludp.SendBuf.Window.{window}
use dmludp.Connection.Example.{sender, receiver}
use dmludp.Connection.{is_established}
use dmludp.Connection.Handshake.{Waits, Listens, handshake_completes}
use dmludp.Connection.Fill.{send_all}
use dmludp.Connection.NextWindow.{HasWindow}
use dmludp.Connection.Round.{Takes, started, send_all_lem}
use dmludp.Connection.Sender.{IsSender, left}
use dmludp.RangeBuf.{from as range_from}

-- a sender that has taken nothing of 3000 bytes
abbrev full : Connection hundredths
full = record sender { written_data = 0; total_offset = 0; send_data = replicate 3000 7 }

full-IsSender : IsSender hundredths full
unfolding new_send_buf
full-IsSender = record {
  valid = record { laid = omega arith; off_u64 = omega arith };
  running = refl;
  aligned = refl;
  counted = refl;
  within = omega arith;
  data_u64 = omega arith;
  blocks = tt;
}

full-HasWindow : HasWindow hundredths full
full-HasWindow = record { increments = omega arith; history = tt }

send_all_lem_example :
    ((send_all hundredths full 5 ≡ some (ok false, started hundredths full 5))
      × IsSender hundredths (started hundredths full 5)
      × (left hundredths full ≡ [])
      × (window full.send_buffer ≡ []))
    ⊎ Takes hundredths full (send_all hundredths full 5)
send_all_lem_example = send_all_lem hundredths full 5 full-IsSender full-HasWindow

abbrev asking : Connection hundredths
asking = record sender { rtt = 0; stop_flag = false }

abbrev listening : Connection hundredths
listening = record receiver { stop_flag = false }

asking-Waits : Waits hundredths sides sides-OctetsLaws asking
asking-Waits = record {
  no_rtt = refl;
  is_server = refl;
  server = refl;
  running = refl;
  counted = omega arith;
}

listening-Listens : Listens hundredths sides sides-OctetsLaws listening
listening-Listens = record {
  is_client = refl;
  client = refl;
  running = refl;
  counted = omega arith;
}

handshake_completes_example :
    (s1 k1 k2 s2 : Connection hundredths) × (asked answered : List ℕ) × (send_data hundredths sides
        asking
        (replicate 30 0)
        10
      ≡ some (ok 26, s1, asked))
    × (recv_slice hundredths sides listening (take 26 asked) 50 ≡ some (ok 0, k1))
    × (send_data hundredths sides k1 (replicate 40 0) 60 ≡ some (ok 26, k2, answered))
    × (recv_slice hundredths sides s1 (take 26 answered) 90 ≡ some (ok 0, s2))
    × (is_established hundredths s2 ≡ true)
    × (s2.rtt ≡ 80)
    × (k2.handshake_confirmed ≡ true)
handshake_completes_example =
    handshake_completes hundredths sides sides-OctetsLaws asking listening (replicate 30 0)
      (replicate 40 0) 10 50 60 90 asking-Waits listening-Listens (omega arith) (omega arith)

-- a sender with 2000 bytes, of which it has taken none
abbrev rested : Connection hundredths
rested = record sender {
  written_data = 0;
  total_offset = 0;
  sent_count = 0;
  send_data = replicate 2000 7;
}

-- behind `send_all`: packets of 1024 and 976 bytes
abbrev state_of : Option (Result Bool × Connection hundredths) → Connection hundredths
state_of (some (r, c)) = c
state_of none = rested

abbrev taken : Connection hundredths
taken = state_of (send_all hundredths rested 5)
