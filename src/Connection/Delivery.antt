-- ===== src/Connection/Delivery.antt =====
-- From `send_all` of src/lib.rs at the sender to the packets at the receiver.
use dmludp.Prelude.{ℕ, ◌*◌, ◌≤◌, ◌≡◌, ◌≢◌, true, false, ◌==◌, length, some}
use dmludp.Prelude.Maps.{lookup}
use dmludp.Floats.{Floats}
use dmludp.Octets.{Octets}
use dmludp.Connection.{Connection}

module _ (f : Floats) where
  -- A sender between two rounds: it has a round-trip time, owes no packet, stands at the first packet
  -- of its buffer, has norms for all its bytes, and no packet has used up its retransmissions.
  pub record IsRested (c : Connection f) : Type 0 where
    pub has_rtt : (c.rtt == 0) ≡ false
    pub confirmed : c.handshake_confirmed ≡ true
    pub none_sent : c.sent_count ≡ 0
    pub no_report : c.recv_flag ≡ false
    pub at_start : c.send_buffer.pos ≡ 0
    pub norms : length c.send_data ≤ 1024 * length c.norm2_vec
    pub may_retry : (off : ℕ) → lookup off c.sent_dic ≢ some 0
