-- ===== src/Connection/Stream/Hear.antt =====
-- `Connection::recv_slice` of src/lib.rs on a sender of a stream: whatever it hears, it stays one.
use dmludp.Prelude.{
  ℕ, ◌≡◌, ◌≢◌, refl, sym, ap, ◌∙◌, subst, if◌then◌else◌, ◌==◌, List, [], ◌∷◌, length, some, none,
  Option, arith, inl, inr, bind-some, add64, slice_from, Bool-cases, if-false, if-true, ◌>>=◌,
}
use mathlib.Core.Option.{some-injective}
use dmludp.Prelude.Maps.{hash_insert}
use dmludp.Error.{Result, ok, err, stopped, buffer_too_short}
use dmludp.Floats.{Floats}
use dmludp.Octets.{Octets}
use dmludp.Packet.{
  PacketType, Header, from_slice, application, elict_ack, handshake, ack, stop, retry, fin,
  start_ack,
}
use dmludp.RecvBuf.{RecvBuf, write as buffer_write}
use dmludp.SendBuf.Window.{Entry, window}
use dmludp.SendBuf.Blocks.{AllInBlock}
use dmludp.Connection.{Connection}
use dmludp.Connection.Receive.{
  process_ack, recv_handshake, recv_application, recv_packet, recv_slice,
}
use dmludp.Connection.Request.{AllU64}
use dmludp.Connection.Paced.{IsPaced, Same-IsPaced}
use dmludp.Connection.Settle.{Settled, Settles, Settles-refl, process_ack-Settles}
use dmludp.Connection.Slices.{Settled-AllSlices}
use dmludp.Connection.Stream.{IsStream}
use dmludp.Connection.Stream.Acked.{Holds, Holds-refl, process_ack-Quiet}

Settled-AllInBlock : (es fs : List Entry) → Settled es fs → AllInBlock es → AllInBlock fs
Settled-AllInBlock [] [] s a = tt
Settled-AllInBlock (e ∷ es) (g ∷ fs) (o, c, p, s) (h, a) =
    (rw (o, c) h, Settled-AllInBlock es fs s a)
Settled-AllInBlock [] (g ∷ fs) s a = absurd s
Settled-AllInBlock (e ∷ es) [] s a = absurd s

module _ (f : Floats) where
  -- what is touched only by a request, and what becomes of the packets
  abbrev Hears : Connection f → Connection f → Type 0
  Hears c c' = Holds f c c' × Settles c.send_buffer c'.send_buffer

  same-Hears : (c c' : Connection f) → Holds f c c' → c'.send_buffer ≡ c.send_buffer → Hears c c'
  same-Hears c c' h e = (h, subst (Settles c.send_buffer) (sym e) (Settles-refl c.send_buffer))

  recv_handshake-Hears : (c : Connection f) (now : ℕ) → Hears c (recv_handshake f c now)
  unfolding recv_handshake
  recv_handshake-Hears c now = same-Hears c (recv_handshake f c now) (ground arith) (ground arith)

  recv_application-Hears :
      (c c' : Connection f) (h : Header) (buf : List ℕ) (r : Result ℕ)
      → recv_application f c h buf ≡ some (r, c')
      → Hears c c'
  unfolding recv_application
  recv_application-Hears c c' h buf r e =
      let (recv_count, _, e1) = bind-some (add64 c.recv_count 1) _ _ e in
      let (payload, _, e2) = bind-some (slice_from buf 26) _ _ e1 in
      let ((wrote, buffer), _, e3) =
        bind-some (buffer_write c.rec_buffer payload h.offset) _ _ e2 in
      stored recv_count wrote buffer e3
    where
      stored :
          (recv_count : ℕ) (wrote : Result (Unit {0})) (buffer : RecvBuf)
          → ◌≡◌ {A = Option (Result ℕ × Connection f)}
              (elim wrote [
                | err e ↦ none
                | ok _ ↦ some (
                  ok h.pkt_length,
                  record c {
                    recv_count = recv_count;
                    rec_buffer = buffer;
                    recv_dic = hash_insert h.offset h.priority c.recv_dic;
                  },
                )
              ])
              (some (r, c'))
          → Hears c c'
      stored recv_count (err x) buffer e = cc
      stored recv_count (ok x) buffer e =
          let stored_in : Connection f = record c {
            recv_count = recv_count;
            rec_buffer = buffer;
            recv_dic = hash_insert h.offset h.priority c.recv_dic;
          } in
          subst (Hears c) (ap (λ q. q.1) (some-injective _ _ e))
            (same-Hears c stored_in (Holds-refl f c) refl)

  -- the end of a branch
  ends :
      (c c1 c' : Connection f) (x r : Result ℕ)
      → Hears c c1
      → ◌≡◌ {A = Option (Result ℕ × Connection f)} (some (x, c1)) (some (r, c'))
      → Hears c c'
  ends c c1 c' x r h e = subst (Hears c) (ap (λ q. q.1) (some-injective _ _ e)) h

  idle : (c : Connection f) → Hears c c
  idle c = same-Hears c c (Holds-refl f c) refl

  -- An acknowledgement is only processed by a server.
  recv_ack-Hears :
      (c c' : Connection f) (buf : List ℕ) (r : Result ℕ)
      → ◌≡◌ {A = Option (Result ℕ × Connection f)}
          (if c.is_server then (do c1 ← process_ack f c buf; some (ok 0, c1)) else some (ok 0, c))
          (some (r, c'))
      → Hears c c'
  recv_ack-Hears c c' buf r e = elim (Bool-cases c.is_server) [
    | inl server ↦
        let (c1, run, e1) = bind-some (process_ack f c buf) _ _ (sym (if-true _ _ _ server) ∙ e) in
        ends c c1 c' (ok 0) r
          ((process_ack-Quiet f c c1 buf run).0, λ v. process_ack-Settles f c c1 buf v run) e1
    | inr client ↦ ends c c c' (ok 0) r (idle c) (sym (if-false _ _ _ client) ∙ e)
  ]

  recv_packet-Hears :
      (o : Octets) (c c' : Connection f) (t : PacketType) (h : Header) (buf : List ℕ) (now : ℕ)
      (r : Result ℕ)
      → t ≢ elict_ack
      → recv_packet f o c t h buf now ≡ some (r, c')
      → Hears c c'
  unfolding recv_packet
  recv_packet-Hears o c c' handshake h buf now r ne e =
      ends c (recv_handshake f c now) c' (ok 0) r (recv_handshake-Hears c now) e
  recv_packet-Hears o c c' elict_ack h buf now r ne e = absurd (ne refl)
  recv_packet-Hears o c c' ack h buf now r ne e = recv_ack-Hears c c' buf r e
  recv_packet-Hears o c c' application h buf now r ne e = recv_application-Hears c c' h buf r e
  recv_packet-Hears o c c' stop h buf now r ne e = ends c c c' (err stopped) r (idle c) e
  recv_packet-Hears o c c' retry h buf now r ne e = ends c c c' (ok 0) r (idle c) e
  recv_packet-Hears o c c' fin h buf now r ne e = ends c c c' (ok 0) r (idle c) e
  recv_packet-Hears o c c' start_ack h buf now r ne e = ends c c c' (ok 0) r (idle c) e

  recv_slice-Hears :
      (o : Octets) (c c' : Connection f) (buf : List ℕ) (now : ℕ) (r : Result ℕ)
      → ((h : Header) → from_slice o buf ≡ ok h → h.ty ≢ elict_ack)
      → recv_slice f o c buf now ≡ some (r, c')
      → Hears c c'
  unfolding recv_slice
  recv_slice-Hears o c c' buf now r other e = elim (Bool-cases (length buf == 0)) [
    | inl empty ↦ ends c c c' (err buffer_too_short) r (idle c) (sym (if-true _ _ _ empty) ∙ e)
    | inr some_bytes ↦
        let (n, _, e1) =
          bind-some (add64 c.recv_count 1) _ _ (sym (if-false _ _ _ some_bytes) ∙ e) in
        parsed n (from_slice o buf) refl e1
  ]
    where
      parsed :
          (n : ℕ) (p : Result Header)
          → from_slice o buf ≡ p
          → ◌≡◌ {A = Option (Result ℕ × Connection f)}
              (elim p [
                | err e ↦ some (err e, record c { recv_count = n })
                | ok hdr ↦ recv_packet f o (record c { recv_count = n }) hdr.ty hdr buf now
              ])
              (some (r, c'))
          → Hears c c'
      parsed n (err x) q e =
          ends c (record c { recv_count = n }) c' (err x) r
            (same-Hears c (record c { recv_count = n }) (Holds-refl f c) refl) e
      parsed n (ok h) q e =
          recv_packet-Hears o (record c { recv_count = n }) c' h.ty h buf now r (other h q) e

  -- Whatever packet a sender of a stream hears, a forged one too, it stays a sender of that stream.
  -- (Conditions: the packet is not a request for acknowledgement, and `recv_slice` does not panic.)
  pub recv_slice-IsStream :
      (d : List ℕ) (o : Octets) (c c' : Connection f) (buf : List ℕ) (now : ℕ) (r : Result ℕ)
      → ((h : Header) → from_slice o buf ≡ ok h → h.ty ≢ elict_ack)
      → IsStream f d c
      → IsPaced f o c
      → recv_slice f o c buf now ≡ some (r, c')
      → IsStream f d c' × IsPaced f o c'
  recv_slice-IsStream d o c c' buf now r other v p e =
      let ((sd, wd, td, rf, sp, apt, sc, off, er), settles) =
        recv_slice-Hears o c c' buf now r other e in
      let (valid, settled) = settles v.sender.valid in
      (
        record {
          sender = record {
            valid = valid;
            running = er ∙ v.sender.running;
            aligned = off ∙ v.sender.aligned ∙ sym td;
            counted = td ∙ v.sender.counted ∙ sym wd;
            within = rw (wd, sd) v.sender.within;
            data_u64 = rw sd v.sender.data_u64;
            blocks =
                Settled-AllInBlock (window c.send_buffer) (window c'.send_buffer) settled
                  v.sender.blocks;
          };
          whole = sd ∙ v.whole;
          slices =
              Settled-AllSlices d (window c.send_buffer) (window c'.send_buffer) settled v.slices;
          offsets = subst AllU64 (sym sp) v.offsets;
          silent = rf ∙ v.silent;
        },
        Same-IsPaced f o c c' (sp, apt, sc) p,
      )
