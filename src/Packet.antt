-- ===== src/Packet.antt =====
-- src/packet.rs: packet types, the 26-byte header and its wire format.
pub mod Layout
pub mod RoundTrip
pub mod Window
mod Tests
use dmludp.Prelude.{ℕ, ◌==◌, if◌then◌else◌, List}
use dmludp.Error.{Result, ok}
use dmludp.Octets.{Octets, Io, get_u8, get_u64, put_u8, put_u64, ◌>>=◌, ◌>>◌}

-- `Type`
pub data PacketType : Type 0 where
  retry handshake application elict_ack ack stop fin start_ack : PacketType

pub record Header : Type 0 where
  pub ty : PacketType
  pub pkt_num : ℕ
  pub priority : ℕ
  pub offset : ℕ
  pub pkt_length : ℕ

-- the chain of tests on the first byte in `from_bytes`
unfoldable pub type_of_byte : ℕ → PacketType
type_of_byte first =
    if first == 0x01
    then retry
    else if first == 0x02
    then handshake
    else if first == 0x03
    then application
    else if first == 0x04
    then elict_ack
    else if first == 0x05
    then ack
    else if first == 0x06
    then stop
    else if first == 0x07
    then fin
    else start_ack

-- the chain of tests on `self.ty` in `to_bytes`; its last branch takes both `Fin` and `StartAck`
unfoldable pub byte_of_type : PacketType → ℕ
byte_of_type retry = 0x01
byte_of_type handshake = 0x02
byte_of_type application = 0x03
byte_of_type elict_ack = 0x04
byte_of_type ack = 0x05
byte_of_type stop = 0x06
byte_of_type _ = 0x07

module _ (o : Octets) where
  unfoldable pub from_bytes : Io o Header
  from_bytes = do
    first ← get_u8 o
    second ← get_u64 o
    third ← get_u8 o
    forth ← get_u64 o
    fifth ← get_u64 o
    λ b. (
      ok (record {
        ty = type_of_byte first;
        pkt_num = second;
        priority = third;
        offset = forth;
        pkt_length = fifth;
      }),
      b,
    )

  unfoldable pub from_slice : List ℕ → Result Header
  unfolding from_bytes
  from_slice buf = (from_bytes (o.with_slice buf)).0

  unfoldable pub to_bytes : Header → Io o (Unit {0})
  to_bytes h = do
    put_u8 o (byte_of_type h.ty)
    put_u64 o h.pkt_num
    put_u8 o h.priority
    put_u64 o h.offset
    put_u64 o h.pkt_length

-- `Header::len`
unfoldable pub header_len : Header → ℕ
header_len h = 26
