-- ===== src/Packet/Tests.antt =====
-- Runs of the header code and of `PktNumWindow`, and the theorems at concrete inputs.
use dmludp.Prelude.{
  ℕ, be_digits, from_be_bytes, ◌≤◌, ◌≡◌, refl, List, [], ◌∷◌, ◌++◌, true, false, replicate, drop,
  arith,
}
use dmludp.Error.{ok, err, buffer_too_short}
use dmludp.Octets.Example.{Sides, sides, sides-OctetsLaws}
use dmludp.Packet.{Header, application, start_ack, fin, from_bytes, from_slice, to_bytes}
use dmludp.Packet.{byte_of_type, type_of_byte}
use dmludp.Packet.Layout.{from_slice_lem}
use dmludp.Packet.RoundTrip.{IsHeader, from_slice-to_bytes}
use dmludp.Packet.Window.{
  PktNumWindow, default_window, additem, ask_again, was_received, get_priority, check_received,
}
use dmludp.Packet.Window.Retries.{answer, asked, check_received_gives_up}
use dmludp.Prelude.Maps.{lookup, hash_insert}

abbrev data_header : Header
data_header = record {
  ty = application;
  pkt_num = 7;
  priority = 3;
  offset = 2048;
  pkt_length = 1024;
}

-- 26 bytes of room and two bytes of payload
abbrev room : List ℕ
room = replicate 26 0 ++ (5 ∷ 6 ∷ [])

start_ack_becomes_fin :
    from_slice sides ((to_bytes sides (record data_header { ty = start_ack }) ([], room)).1.0)
    ≡ ok (record data_header { ty = fin })
unfolding from_slice from_bytes to_bytes byte_of_type type_of_byte be_digits from_be_bytes
start_ack_becomes_fin = refl

too_short : from_slice sides (1 ∷ 2 ∷ 3 ∷ []) ≡ err buffer_too_short
unfolding from_slice
too_short = refl

data_header-IsHeader : IsHeader data_header
data_header-IsHeader = omega arith

from_slice-to_bytes_example :
    (b : Sides) × (to_bytes sides data_header ([], room) ≡ (ok tt, b))
    × (from_slice sides (b.0 ++ b.1) ≡ ok data_header)
    × (drop 26 (b.0 ++ b.1) ≡ 5 ∷ 6 ∷ [])
from_slice-to_bytes_example =
    from_slice-to_bytes sides sides-OctetsLaws data_header room data_header-IsHeader (omega arith)

from_slice_lem_example : from_slice sides (1 ∷ 2 ∷ 3 ∷ []) ≡ err buffer_too_short
from_slice_lem_example = from_slice_lem sides sides-OctetsLaws (1 ∷ 2 ∷ 3 ∷ [])

-- a window that knows that the block at 1024 has priority 2
abbrev one_block : PktNumWindow
one_block = record { priority_record = (1024, 2) ∷ []; records = [] }

block_priority : get_priority one_block 1024 ≡ 2
unfolding get_priority lookup
block_priority = refl

check_received_gives_up_example :
    ((k : ℕ) → k ≤ 2 → answer k one_block 1500 ≡ false) × (answer 3 one_block 1500 ≡ true)
unfolding lookup
check_received_gives_up_example = check_received_gives_up one_block 1500 2 refl block_priority

unknown_block_gives_up : answer 4 default_window 0 ≡ true
unfolding answer asked check_received ask_again was_received additem get_priority lookup hash_insert
unknown_block_gives_up = refl

-- an offset that is asked for, with one retransmission left
abbrev waiting : PktNumWindow
waiting = record { priority_record = []; records = (40, (1, 0)) ∷ [] }
