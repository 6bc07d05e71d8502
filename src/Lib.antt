-- ===== src/Lib.antt =====
-- A model of dmludp, a transport protocol over UDP that carries a stream of bytes in packets of
-- 1024 and retransmits by priority, with what was proved of it.
--
-- The program and the files that model it (paths are those of the repository):
-- * src/lib.rs, `Error` and `Result`: Error. `Config`: Config, with the names of the congestion
--   control algorithms of src/recovery/mod.rs.
-- * src/packet.rs, `Type` and `Header`: Packet. The header is read and printed with the cursor of
--   the `octets` crate, which is not part of the repository: it is a parameter, the record `Octets`
--   of Octets, with the documented behaviour as `OctetsLaws`. Octets.Example has a cursor with
--   these laws.
-- * src/packet.rs, `PktNumWindow` and `PktNumSpace`: Packet.Window.
-- * src/lib.rs, `RangeBuf`, a chunk of bytes with its offset: RangeBuf.
-- * src/lib.rs, `SendBuf`, the chunks to send: SendBuf, with its methods under their names.
--   SendBuf.Window has the invariant and the abstract view, a list of packets that each still wait
--   or not; the other modules below it show how the methods act on that view.
-- * src/lib.rs, `RecvBuf`, the chunks received: RecvBuf.
-- * src/recovery/mod.rs, `Recovery`: Recovery; src/recovery/NewCubic.rs: Recovery.Cubic;
--   src/recovery/modv1.rs, an older version that no build uses: Recovery.Older. Floating
--   point numbers are a parameter, the record `Floats` of Floats. `FloatsLaws` has what the theorems
--   on Connection.Text assume of it: how comparisons go together, and four bytes for an `f32`.
-- * src/lib.rs, `Connection`, which owns one `SendBuf`, one `RecvBuf`, a `Recovery` and two
--   `PktNumSpace`s and calls them: Connection has its state and the small methods, Connection.Send
--   has `send_data` with the packets that Connection.Wire writes, Connection.Fill has `write` and
--   `send_all`, Connection.Receive has `recv_slice` with `process_ack` and `check_loss`,
--   Connection.Text has `data_send` and `process_string`, on the text as a list of characters.
--   Connection.Deliver, Connection.Exchange, Connection.Feedback and Connection.Handshake join a
--   sender with a receiver, Connection.Round is about the rounds of a sender, and
--   Connection.Example has a concrete sender. Connection.System has a sender and a receiver with a
--   network as a step relation, of which each step is a call; Connection.Stream has, call by call,
--   what keeps its invariant. Connection.Sender has what a sender keeps from round to round,
--   Connection.Batch and Connection.Delivery are about a whole window of packets,
--   Connection.Honest about what a receiver reports, Connection.Reliable about what the sender
--   makes of it.
-- * src/ffi.rs, the functions for C: Ffi. What they use of `libc` is a parameter, the record
--   `Libc` of Sockets, with its documented behaviour as `LibcLaws`.
--
-- How the code is modelled. A method with `&mut self` returns its result and the new state; a
-- method with a buffer `out` returns that too. A panic is `none`: integers are u64 and usize of 64
-- bits with checked overflow (`add64`, `sub64` and `mul64` of Prelude.Machine), and slices are
-- checked. The sum of the lengths of vectors in memory is not checked, since it cannot pass
-- usize. `Result` is a data type. A `BTreeMap` is the list of its entries in ascending order, a
-- `HashMap` a list of entries. Loops are structural recursion on the list of chunks that is left;
-- `println!` is left out. Fields called `data` and `record` are called `bytes`, `chunks` and
-- `records`, after what they hold.
--
-- Two loops run on fuel: `check_loop` and `ack_loop` of Connection.Receive get the number of bytes of
-- their packet, and each of their rounds takes 8 or 16 of these. A clock is a number of
-- nanoseconds, given to the methods that read it.
--
-- Not modelled: the functions of src/ffi.rs that the compiler refuses (`quiche_header_info`,
-- `quiche_dada_send`, `quiche_conn_send`) or that only free memory; the C++ programs. The timers
-- and RTT fields of `Recovery` are never written and are left out, and so are the addresses of
-- `Connection`. What `CStr::to_str` makes of a name is a parameter. The clock's times have no upper
-- bound, so that the overflow of `Duration` in `new_rtt` and `update_rtt` (times of more than 10 ^
-- 10 years) is left out.
pub mod Prelude
pub mod Error
pub mod Octets
pub mod Packet
pub mod RangeBuf
pub mod SendBuf
pub mod RecvBuf
pub mod Floats
pub mod Config
pub mod Recovery
pub mod Connection
pub mod Sockets
pub mod Ffi
