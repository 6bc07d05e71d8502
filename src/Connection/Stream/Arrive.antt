-- ===== src/Connection/Stream/Arrive.antt =====
-- `Connection::recv_slice` of src/lib.rs on the receiver of a stream that is given a genuine packet.
use dmludp.Prelude.{
  ℕ, ◌≡◌, ◌+◌, ◌<◌, refl, sym, ap, ap₂, ◌∙◌, subst, false, ◌==◌, List, length, some, none, Option,
  arith, inl, inr, bind-some, add64, slice_from, if-false, u64_mod,
}
use mathlib.Core.Option.{some-injective}
use dmludp.Prelude.Maps.{hash_insert}
use dmludp.Error.{Result, ok, err, stopped}
use dmludp.Floats.{Floats}
use dmludp.Octets.{Octets, OctetsLaws}
use dmludp.Packet.{
  PacketType, Header, application, elict_ack, handshake, ack, stop, retry, fin, start_ack,
}
use dmludp.Packet.RoundTrip.{
  IsHeader, encoded, length-encoded, from_slice-encoded, slice_from-encoded, on_wire,
}
use dmludp.RangeBuf.{from as range_from}
use dmludp.RecvBuf.{RecvBuf, write as buffer_write}
use dmludp.RecvBuf.Insert.{received, write_lem}
use dmludp.Connection.{Connection}
use dmludp.Connection.Receive.{
  recv_handshake, recv_request, recv_application, recv_packet, recv_slice,
}
use dmludp.Connection.Slices.{IsSlice, AllHeld, tree_insert-AllHeld}
use dmludp.Connection.Stream.{IsControl, IsGenuine}

module _ (f : Floats) where
  -- what the receiver holds stands in the stream
  abbrev pub Held : List ℕ → Connection f → Type 0
  Held d c = AllHeld d c.rec_buffer.chunks

  Same : Connection f → Connection f → Type 0
  Same c c' = c.rec_buffer ≡ c'.rec_buffer

  keeps : (d : List ℕ) (c c' : Connection f) → c.rec_buffer ≡ c'.rec_buffer → Held d c → Held d c'
  keeps d c c' e a = subst (λ b. AllHeld d b.chunks) e a

  pub last :
      (c1 c' : Connection f) (x r : Result ℕ)
      → ◌≡◌ {A = Option (Result ℕ × Connection f)} (some (x, c1)) (some (r, c'))
      → c1 ≡ c'
  last c1 c' x r e = ap (λ q. q.1) (some-injective _ _ e)

  recv_request-same :
      (o : Octets) (c c' : Connection f) (buf : List ℕ)
      → recv_request f o c buf ≡ some c'
      → c.rec_buffer ≡ c'.rec_buffer
  unfolding recv_request
  recv_request-same o c c' buf e = ground arith

  -- A control packet leaves what is held alone.
  control-same :
      (o : Octets) (c c' : Connection f) (t : PacketType) (h : Header) (buf : List ℕ) (now : ℕ)
      (r : Result ℕ)
      → IsControl t
      → recv_packet f o c t h buf now ≡ some (r, c')
      → c.rec_buffer ≡ c'.rec_buffer
  unfolding recv_packet recv_handshake
  control-same o c c' handshake h buf now r i e =
      let state : recv_handshake f c now ≡ c' = last (recv_handshake f c now) c' (ok 0) r e in
      untouched ∙ ap (λ x. x.rec_buffer) state
    where
      untouched : c.rec_buffer ≡ (recv_handshake f c now).rec_buffer
      untouched = ground arith
  control-same o c c' elict_ack h buf now r i e =
      let (c1, run, e1) = bind-some (recv_request f o c buf) _ _ e in
      recv_request-same o c c1 buf run ∙ ap (λ x. x.rec_buffer) (last c1 c' (ok 0) r e1)
  control-same o c c' stop h buf now r i e = ap (λ x. x.rec_buffer) (last c c' (err stopped) r e)
  control-same o c c' application h buf now r i e = absurd i
  control-same o c c' ack h buf now r i e = absurd i
  control-same o c c' retry h buf now r i e = absurd i
  control-same o c c' fin h buf now r i e = absurd i
  control-same o c c' start_ack h buf now r i e = absurd i

  -- A data packet is stored under the offset of its end.
  recv_application-Held :
      (d : List ℕ) (c c' : Connection f) (h : Header) (payload : List ℕ) (ty : Header)
      (r : Result ℕ)
      → length d < u64_mod
      → IsSlice d h.offset payload
      → recv_application f c ty (encoded h payload) ≡ some (r, c')
      → ty.offset ≡ h.offset
      → Held d c
      → Held d c'
  unfolding recv_application range_from
  recv_application-Held d c c' h payload ty r d64 piece e at a =
      let (n, _, e1) = bind-some (add64 c.recv_count 1) _ _ e in
      let (bytes, cut, e2) = bind-some (slice_from (encoded h payload) 26) _ _ e1 in
      let ((wrote, buffer), run, e3) =
        bind-some (buffer_write c.rec_buffer bytes ty.offset) _ _ e2 in
      let taken : payload ≡ bytes = some-injective _ _ (sym (slice_from-encoded h payload) ∙ cut) in
      let same : buffer_write c.rec_buffer bytes ty.offset
          ≡ buffer_write c.rec_buffer payload h.offset =
        ap₂ (buffer_write c.rec_buffer) (sym taken) at in
      let put : received c.rec_buffer payload h.offset ≡ buffer =
        ap (λ q. q.1)
          (some-injective _ _ (
            sym (write_lem payload h.offset (omega (arith, piece.within, d64)) c.rec_buffer).0
            ∙ sym same
            ∙ run)) in
      subst (λ b. AllHeld d b.chunks) (put ∙ stored n wrote buffer e3)
        (tree_insert-AllHeld d (h.offset + length payload) (range_from payload h.offset)
          c.rec_buffer.chunks (refl, piece) a)
    where
      stored :
          (n : ℕ) (wrote : Result (Unit {0})) (buffer : RecvBuf)
          → ◌≡◌ {A = Option (Result ℕ × Connection f)}
              (elim wrote [
                | err e ↦ none
                | ok _ ↦ some (
                  ok ty.pkt_length,
                  record c {
                    recv_count = n;
                    rec_buffer = buffer;
                    recv_dic = hash_insert ty.offset ty.priority c.recv_dic;
                  },
                )
              ])
              (some (r, c'))
          → buffer ≡ c'.rec_buffer
      stored n (err x) buffer e = cc
      stored n (ok x) buffer e = ap (λ q. q.1.rec_buffer) (some-injective _ _ e)

on_wire-IsControl : (t : PacketType) → IsControl t → IsControl (on_wire t)
on_wire-IsControl handshake i = i
on_wire-IsControl elict_ack i = i
on_wire-IsControl stop i = i
on_wire-IsControl application i = absurd i
on_wire-IsControl ack i = absurd i
on_wire-IsControl retry i = absurd i
on_wire-IsControl fin i = absurd i
on_wire-IsControl start_ack i = absurd i

not_zero : (n : ℕ) → (26 + n == 0) ≡ false
not_zero n = ground arith

module _ (f : Floats) (o : Octets) (laws : OctetsLaws o) where
  -- `recv_slice` on the bytes of a packet is `recv_packet` on its header.
  recv_slice-encoded :
      (c c' : Connection f) (h : Header) (payload : List ℕ) (now : ℕ) (r : Result ℕ)
      → IsHeader h
      → recv_slice f o c (encoded h payload) now ≡ some (r, c')
      → (n : ℕ) × (recv_packet f o
            (record c { recv_count = n })
            (on_wire h.ty)
            (record h { ty = on_wire h.ty })
            (encoded h payload)
            now
          ≡ some (r, c'))
  unfolding recv_slice
  recv_slice-encoded c c' h payload now r fields e =
      let (n, _, e1) = bind-some (add64 c.recv_count 1) _ _ (sym (if-false _ _ _ long) ∙ e) in
      (n, sym (ap (parsed n) (from_slice-encoded o laws h payload fields)) ∙ e1)
    where
      long : (length (encoded h payload) == 0) ≡ false
      long = rw length-encoded (not_zero (length payload))

      parsed : ℕ → Result Header → Option (Result ℕ × Connection f)
      parsed n p = elim p [
        | err e ↦ some (err e, record c { recv_count = n })
        | ok hdr ↦ recv_packet f o (record c { recv_count = n }) hdr.ty hdr (encoded h payload) now
      ]

  -- A receiver that is given a genuine packet only holds pieces of the stream, each in its place, if it
  -- did before. (Condition: `recv_slice` does not panic.)
  pub recv_slice-Held :
      (d : List ℕ) (c c' : Connection f) (packet : List ℕ) (now : ℕ) (r : Result ℕ)
      → length d < u64_mod
      → IsGenuine d packet
      → recv_slice f o c packet now ≡ some (r, c')
      → Held f d c
      → Held f d c'
  unfolding recv_packet
  recv_slice-Held d c c' packet now r d64 g e a =
      let (n, run) =
        recv_slice-encoded c c' g.header g.payload now r g.fields
          (ap (λ xs. recv_slice f o c xs now) (sym g.laid_out) ∙ e) in
      elim g.kind [
        | inl control ↦
            keeps f d (record c { recv_count = n }) c'
              (control-same f o (record c { recv_count = n }) c' (on_wire g.header.ty)
                (record (g.header) { ty = on_wire g.header.ty }) (encoded g.header g.payload) now r
                (on_wire-IsControl g.header.ty control) run)
              a
        | inr (is_data, piece) ↦
            recv_application-Held f d (record c { recv_count = n }) c' g.header g.payload
              (record (g.header) { ty = application }) r d64 piece
              (sym (
                  ap
                    (λ t.
                      recv_packet f o (record c { recv_count = n }) (on_wire t)
                        (record (g.header) { ty = on_wire t }) (encoded g.header g.payload) now)
                    is_data)
                ∙ run)
              refl a
      ]
