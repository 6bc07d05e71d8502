-- ===== src/Connection/System.antt =====
-- A sender and a receiver of src/lib.rs with a network between them, in any order of the calls of
-- `send_all`, `send_data`, `recv_slice` and `read`. The network has every packet that was ever sent: it
-- may deliver it late, again and again, in any order, or never.
pub mod Safety
mod Tests
use dmludp.Prelude.{
  ℕ, ◌≤◌, ◌<◌, ◌≡◌, ◌≢◌, Bool, false, List, [], ◌∷◌, length, take, some, none, u64_mod, ◌⊎◌,
}
use dmludp.Error.{Error, Result, ok, err, buffer_too_short}
use dmludp.Floats.{Floats}
use dmludp.Octets.{Octets}
use dmludp.Packet.{Header, elict_ack, from_slice}
use dmludp.Connection.{Connection, read}
use dmludp.Connection.Fill.{send_all}
use dmludp.Connection.NextWindow.{HasWindow}
use dmludp.Connection.Send.{send_data}
use dmludp.Connection.Receive.{recv_slice}

abbrev pub IsIn : List ℕ → List (List ℕ) → Type 0
IsIn packet [] = ⊥
IsIn packet (p ∷ network) = (p ≡ packet) ⊎ IsIn packet network

module _ (f : Floats) where
  pub record System : Type 0 where
    pub sender : Connection f
    pub receiver : Connection f
    -- the packets that were sent
    pub network : List (List ℕ)

  -- Before the first round: the sender has the stream `d` to send, and nothing was sent or received.
  pub record IsStart (d : List ℕ) (s : System) : Type 0 where
    pub stream : s.sender.send_data ≡ d
    pub short : length d < u64_mod
    pub no_chunks : s.sender.send_buffer.chunks ≡ []
    pub no_flags : s.sender.send_buffer.offset_recv ≡ []
    pub at_start : s.sender.send_buffer.off ≡ 0
    pub running : s.sender.send_buffer.error ≡ none
    pub none_written : s.sender.written_data ≡ 0
    pub no_offset : s.sender.total_offset ≡ 0
    pub none_sent : s.sender.sent_pkt ≡ []
    pub none_named : s.sender.ack_point ≡ 0
    pub none_counted : s.sender.sent_count ≡ 0
    pub owes_nothing : s.sender.recv_flag ≡ false
    pub no_packets : s.network ≡ []
    pub none_received : s.receiver.rec_buffer.chunks ≡ []

module _ (f : Floats) (o : Octets) where
  -- One call. The buffers that the sender is given have room for its packets, and what it hears is
  -- anything, forged or not, that is no request for acknowledgement.
  pub data Step (s : System f) : System f → Type 0 where
    filled :
        (now : ℕ) (r : Result Bool) (c : Connection f)
        → HasWindow f s.sender
        → send_all f s.sender now ≡ some (r, c)
        → Step s (record s { sender = c })
    sent :
        (now n : ℕ) (out out' : List ℕ) (c : Connection f)
        → 1050 ≤ length out
        → send_data f o s.sender out now ≡ some (ok n, c, out')
        → Step s (record s { sender = c; network = take n out' ∷ s.network })
    not_sent :
        (now : ℕ) (out out' : List ℕ) (e : Error) (c : Connection f)
        → 1050 ≤ length out
        → e ≢ buffer_too_short
        → send_data f o s.sender out now ≡ some (err e, c, out')
        → Step s (record s { sender = c })
    heard :
        (now : ℕ) (buf : List ℕ) (r : Result ℕ) (c : Connection f)
        → ((h : Header) → from_slice o buf ≡ ok h → h.ty ≢ elict_ack)
        → recv_slice f o s.sender buf now ≡ some (r, c)
        → Step s (record s { sender = c })
    arrived :
        (now : ℕ) (packet : List ℕ) (r : Result ℕ) (c : Connection f)
        → IsIn packet s.network
        → recv_slice f o s.receiver packet now ≡ some (r, c)
        → Step s (record s { receiver = c })
    replied :
        (now : ℕ) (out out' : List ℕ) (r : Result ℕ) (c : Connection f)
        → send_data f o s.receiver out now ≡ some (r, c, out')
        → Step s (record s { receiver = c })
    was_read :
        (out out' : List ℕ) (r : Result ℕ) (c : Connection f)
        → read f s.receiver out ≡ some (r, c, out')
        → Step s (record s { receiver = c })

  pub data Reach (d : List ℕ) : System f → Type 0 where
    start : (s : System f) → IsStart f d s → Reach d s
    later : {s t : System f} → Reach d s → Step s t → Reach d t
