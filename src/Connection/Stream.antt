-- ===== src/Connection/Stream.antt =====
-- What `Connection::send_data` of src/lib.rs leaves alone, and what stands in the packets that it makes.
pub mod Control
pub mod Data
pub mod Send
pub mod Round
pub mod Acked
pub mod Hear
pub mod Arrive
pub mod Use
pub mod Reply
use dmludp.Prelude.{
  ℕ, ◌+◌, ◌≤◌, ◌<◌, ◌≡◌, refl, sym, ap, ap₂, ◌∙◌, subst, Bool, true, false, if◌then◌else◌, ◌%◌,
  ◌==◌, ltb, ◌&&◌, ◌||◌, not, List, [], ◌∷◌, ◌++◌, length, some, none, Option, arith, IsU64,
  u64_mod, ◌⊎◌, inl, inr,
}
use dmludp.Error.{Result, ok, err, done}
use dmludp.Floats.{Floats}
use dmludp.Octets.{Octets}
use dmludp.Packet.{
  PacketType, Header, application, elict_ack, handshake, ack, stop, retry, fin, start_ack,
}
use dmludp.Packet.RoundTrip.{IsHeader, encoded}
use dmludp.SendBuf.{is_nil}
use dmludp.SendBuf.Window.{IsValid, Laid, window, view}
use dmludp.SendBuf.Emitted.{Kept}
use dmludp.Connection.{Connection, write_pkt_type}
use dmludp.Connection.Request.{AllU64}
use dmludp.Connection.Paced.{IsPaced}
use dmludp.Connection.Sender.{IsSender}
use dmludp.Connection.Slices.{IsSlice, AllSlices}

-- the types of the packets of a sender that carry no data
abbrev pub IsControl : PacketType → Type 0
IsControl handshake = Unit
IsControl elict_ack = Unit
IsControl stop = Unit
IsControl _ = ⊥

-- A packet of a sender of the stream `d`: a data packet carries a piece of the stream, and names the
-- offset at which it stands.
pub record IsGenuine (d packet : List ℕ) : Type 0 where
  pub header : Header
  pub payload : List ℕ
  pub fields : IsHeader header
  pub laid_out : packet ≡ encoded header payload
  pub kind : IsControl header.ty ⊎ ((header.ty ≡ application) × IsSlice d header.offset payload)

module _ (f : Floats) where
  -- what stays the same in a call of `send_data`, up to the offsets sent
  pub record Goes (c c' : Connection f) : Type 0 where
    pub same_data : c'.send_data ≡ c.send_data
    pub same_written : c'.written_data ≡ c.written_data
    pub same_total : c'.total_offset ≡ c.total_offset
    pub silent : c'.recv_flag ≡ c.recv_flag
    pub kept : Kept c.send_buffer c'.send_buffer
    pub offsets : AllU64 c.sent_pkt → AllU64 c'.sent_pkt

  pub Goes-trans : (a b c : Connection f) → Goes a b → Goes b c → Goes a c
  Goes-trans a b c g h = record {
    same_data = h.same_data ∙ g.same_data;
    same_written = h.same_written ∙ g.same_written;
    same_total = h.same_total ∙ g.same_total;
    silent = h.silent ∙ g.silent;
    kept = record {
      same_chunks = h.kept.same_chunks ∙ g.kept.same_chunks;
      same_flags = h.kept.same_flags ∙ g.kept.same_flags;
      same_off = h.kept.same_off ∙ g.kept.same_off;
      same_error = h.kept.same_error ∙ g.kept.same_error;
    };
    offsets = λ u. h.offsets (g.offsets u);
  }

  -- nothing of it changed at all
  abbrev pub Unchanged : Connection f → Connection f → Type 0
  Unchanged c c' =
      (c'.send_data ≡ c.send_data)
      × (c'.written_data ≡ c.written_data)
      × (c'.total_offset ≡ c.total_offset)
      × (c'.recv_flag ≡ c.recv_flag)
      × (c'.send_buffer ≡ c.send_buffer)
      × (c'.sent_pkt ≡ c.sent_pkt)

  pub Goes-same : (c c' : Connection f) → Unchanged c c' → Goes c c'
  Goes-same c c' (d, w, t, r, b, p) = record {
    same_data = d;
    same_written = w;
    same_total = t;
    silent = r;
    kept = record {
      same_chunks = ap (λ s. s.chunks) b;
      same_flags = ap (λ s. s.offset_recv) b;
      same_off = ap (λ s. s.off) b;
      same_error = ap (λ s. s.error) b;
    };
    offsets = λ u. subst AllU64 (sym p) u;
  }

  -- what a sender may be about to send
  abbrev pub IsChoice : Result PacketType → Type 0
  IsChoice (err e) = Unit
  IsChoice (ok application) = Unit
  IsChoice (ok t) = IsControl t

  abbrev pub Picks : Connection f → Result PacketType × Connection f → Type 0
  Picks c (t, c') =
      Goes c c' × (c'.sent_pkt ≡ c.sent_pkt) × (c'.ack_point ≡ c.ack_point) × IsChoice t

  picks :
      (c c' : Connection f) (t : Result PacketType)
      → Unchanged c c'
      → c'.ack_point ≡ c.ack_point
      → IsChoice t
      → Picks c (t, c')
  picks c c' t (d, w, l, r, b, p) a i = (Goes-same c c' (d, w, l, r, b, p), p, a, i)

  choose :
      (c : Connection f) (b : Bool) (x y : Result PacketType × Connection f)
      → (b ≡ true → Picks c x)
      → Picks c y
      → Picks c (if b then x else y)
  choose c true x y p q = p refl
  choose c false x y p q = q

  pub write_pkt_type-Picks : (c : Connection f) → c.recv_flag ≡ false → Picks c (write_pkt_type f c)
  unfolding write_pkt_type
  write_pkt_type-Picks c silent =
      choose c (c.rtt == 0 && c.is_server) _ _
        (λ _. picks c _ (ok handshake) (refl, refl, refl, refl, refl, refl) refl tt)
        (choose c (not c.handshake_confirmed && not c.is_server) _ _
          (λ _. picks c _ (ok handshake) (refl, refl, refl, refl, refl, refl) refl tt)
          (choose c ((c.sent_count % 8 == 0 && ltb 0 c.sent_count) || c.stop_flag) _ _
            (λ _. picks c _ (ok elict_ack) (refl, refl, refl, refl, refl, refl) refl tt)
            (choose c c.recv_flag _ _ (λ flag. cc)
              (choose c (not (c.rtt == 0)) _ _
                (λ _. picks c _ (ok application) (refl, refl, refl, refl, refl, refl) refl tt)
                (choose c (is_nil c.send_buffer.chunks) _ _
                  (λ _. picks c _ (ok stop) (refl, refl, refl, refl, refl, refl) refl tt)
                  (picks c _ (err done) (refl, refl, refl, refl, refl, refl) refl tt))))))

  -- A sender of the stream `d`: what waits in its window stands in the stream at its offset.
  pub record IsStream (d : List ℕ) (c : Connection f) : Type 0 where
    pub sender : IsSender f c
    pub whole : c.send_data ≡ d
    pub slices : AllSlices d (window c.send_buffer)
    pub offsets : AllU64 c.sent_pkt
    pub silent : c.recv_flag ≡ false

  pub Goes-IsStream : (d : List ℕ) (c c' : Connection f) → Goes c c' → IsStream d c → IsStream d c'
  Goes-IsStream d c c' g v =
      let same : window c'.send_buffer ≡ window c.send_buffer = seen in
      record {
        sender = record {
          valid = record {
            laid = rw (g.kept.same_chunks, g.kept.same_flags, g.kept.same_off) v.sender.valid.laid;
            off_u64 = omega (arith, g.kept.same_off, v.sender.valid.off_u64);
          };
          running = g.kept.same_error ∙ v.sender.running;
          aligned = g.kept.same_off ∙ v.sender.aligned ∙ sym g.same_total;
          counted = g.same_total ∙ v.sender.counted ∙ sym g.same_written;
          within = rw (g.same_written, g.same_data) v.sender.within;
          data_u64 = rw g.same_data v.sender.data_u64;
          blocks = rw same v.sender.blocks;
        };
        whole = g.same_data ∙ v.whole;
        slices = rw same v.slices;
        offsets = g.offsets v.offsets;
        silent = g.silent ∙ v.silent;
      }
    where
      seen : window c'.send_buffer ≡ window c.send_buffer
      seen = ap₂ view g.kept.same_chunks g.kept.same_flags
