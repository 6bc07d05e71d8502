-- ===== src/Ffi/Tests.antt =====
-- The theorems on the functions for C at concrete inputs.
use dmludp.Prelude.{◌≡◌, refl, [], ◌∷◌, some, arith}
use dmludp.Error.{ok, done, neg}
use dmludp.Floats.Example.{hundredths}
use dmludp.Octets.Example.{sides, sides-OctetsLaws}
use dmludp.Packet.RoundTrip.{encoded}
use dmludp.RangeBuf.{RangeBuf}
use dmludp.Sockets.Example.{Memory, in4, big_endian, big_endian-LibcLaws}
use dmludp.Connection.Receive.{recv_slice}
use dmludp.Connection.Deliver.{delivered}
use dmludp.Connection.Example.{sender}
use dmludp.Ffi.{SocketAddr, v4, std_addr_from_c, std_addr_to_c, quiche_conn_recv}
use dmludp.Ffi.Address.{std_addr_from_c-std_addr_to_c}
use dmludp.Ffi.Codes.{forged, every_error_is_forged}
use dmludp.Error.{to_c}

abbrev localhost : SocketAddr
localhost = v4 (127 ∷ 0 ∷ 0 ∷ 1 ∷ []) 4433

abbrev empty : Memory
empty = in4 (record { sin_family = 0; sin_port = 0; s_addr = 0 })

std_addr_from_c-std_addr_to_c_example :
    std_addr_from_c big_endian
      (std_addr_to_c big_endian localhost empty).1
      (std_addr_to_c big_endian localhost empty).0
    ≡ some localhost
std_addr_from_c-std_addr_to_c_example =
    std_addr_from_c-std_addr_to_c big_endian big_endian-LibcLaws localhost empty
      (refl, (omega arith, (omega arith, (omega arith, (omega arith, tt)))), omega arith)

abbrev two_bytes : RangeBuf
two_bytes = record { bytes = 5 ∷ 6 ∷ []; start = 0; pos = 0; len = 2; off = 1024 }

-- `Done` is -1, and the header says 2 ^ 64 - 1
every_error_is_forged_example :
    (recv_slice hundredths sides sender (encoded (forged done 7 1 1024) (5 ∷ 6 ∷ [])) 9
      ≡ some (ok 0xffff_ffff_ffff_ffff, delivered hundredths sender two_bytes 1))
    × (quiche_conn_recv hundredths sides sender (encoded (forged done 7 1 1024) (5 ∷ 6 ∷ [])) 9
        ≡ some (neg 1, delivered hundredths sender two_bytes 1))
unfolding to_c
every_error_is_forged_example =
    every_error_is_forged hundredths sides sides-OctetsLaws done sender two_bytes 7 1 9
      (omega arith) (omega arith) (omega arith) (omega arith) (omega arith)
