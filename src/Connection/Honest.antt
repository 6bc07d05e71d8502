-- ===== src/Connection/Honest.antt =====
-- What a receiver of src/lib.rs reports as received, in any order of the calls of `recv_slice`,
-- `send_data` and `read`.
use dmludp.Prelude.{
  ℕ, ◌≡◌, sym, ap, ◌∙◌, subst, true, ◌==◌, List, [], length, some, Option, inl, inr, bind-some,
  add64, Bool-cases, if-false, if-true,
}
use mathlib.Core.Option.{some-injective}
use dmludp.Prelude.Maps.{lookup}
use dmludp.Error.{Result, ok, err, buffer_too_short}
use dmludp.Floats.{Floats}
use dmludp.Octets.{Octets}
use dmludp.Packet.{
  PacketType, Header, from_slice, application, elict_ack, handshake, ack, stop, retry, fin,
  start_ack,
}
use dmludp.RecvBuf.{emit as buffer_emit}
use dmludp.Connection.{Connection, read}
use dmludp.Connection.Answer.{member}
use dmludp.Connection.Send.{send_data}
use dmludp.Connection.Receive.{recv_packet, recv_slice}
use dmludp.Connection.Stream.Arrive.{last}
use dmludp.Connection.Stream.Reply.{send_data-Noted}
use dmludp.Connection.Noted.{
  lookup-IsTrue, note, noting, IsHonest, nothing_noted, or_true, same-IsHonest,
  recv_packet-IsHonest,
}

module _ (f : Floats) where
  more_offsets :
      (t : PacketType) (j : ℕ) (offsets : List ℕ) (c : Connection f)
      → IsHonest f offsets c
      → IsHonest f (note t j offsets) c
  more_offsets application j offsets c (t, a) =
      (t, λ k q. or_true (j == k) (member k offsets) (a k q))
  more_offsets handshake j offsets c v = v
  more_offsets elict_ack j offsets c v = v
  more_offsets ack j offsets c v = v
  more_offsets stop j offsets c v = v
  more_offsets retry j offsets c v = v
  more_offsets fin j offsets c v = v
  more_offsets start_ack j offsets c v = v

  recv_slice-IsHonest :
      (o : Octets) (offsets : List ℕ) (c c' : Connection f) (buf : List ℕ) (now : ℕ) (r : Result ℕ)
      → recv_slice f o c buf now ≡ some (r, c')
      → IsHonest f offsets c
      → IsHonest f (noting o buf offsets) c'
  unfolding recv_slice
  recv_slice-IsHonest o offsets c c' buf now r e v = elim (Bool-cases (length buf == 0)) [
    | inl empty ↦
        subst (IsHonest f (noting o buf offsets))
          (last f c c' (err buffer_too_short) r (sym (if-true _ _ _ empty) ∙ e))
          (nothing (from_slice o buf))
    | inr some_bytes ↦
        let (n, _, e1) =
          bind-some (add64 c.recv_count 1) _ _ (sym (if-false _ _ _ some_bytes) ∙ e) in
        parsed n (from_slice o buf) e1
  ]
    where
      nothing :
          (p : Result Header)
          → IsHonest f (elim p [ err e ↦ offsets | ok h ↦ note h.ty h.offset offsets ]) c
      nothing (err x) = v
      nothing (ok h) = more_offsets h.ty h.offset offsets c v

      parsed :
          (n : ℕ) (p : Result Header)
          → ◌≡◌ {A = Option (Result ℕ × Connection f)}
              (elim p [
                | err e ↦ some (err e, record c { recv_count = n })
                | ok hdr ↦ recv_packet f o (record c { recv_count = n }) hdr.ty hdr buf now
              ])
              (some (r, c'))
          → IsHonest f (elim p [ err e ↦ offsets | ok h ↦ note h.ty h.offset offsets ]) c'
      parsed n (err x) e =
          subst (IsHonest f offsets) (last f (record c { recv_count = n }) c' (err x) r e) v
      parsed n (ok h) e =
          recv_packet-IsHonest f o offsets (record c { recv_count = n }) c' h.ty h buf now r e v

  send_data-IsHonest :
      (o : Octets) (offsets : List ℕ) (c c' : Connection f) (out out' : List ℕ) (r : Result ℕ)
      (now : ℕ)
      → send_data f o c out now ≡ some (r, c', out')
      → IsHonest f offsets c
      → IsHonest f offsets c'
  send_data-IsHonest o offsets c c' out out' r now e v =
      let (_, d, m) = send_data-Noted f o c c' out out' r now e in
      elim m [
        | inl same ↦ same-IsHonest f offsets c c' (sym d) (sym same) v
        | inr used ↦
            same-IsHonest f offsets (record c { recv_hashmap = [] }) c' (sym d) (sym used) (tt, v.1)
      ]

  read-IsHonest :
      (offsets : List ℕ) (c c' : Connection f) (out out' : List ℕ) (r : Result ℕ)
      → read f c out ≡ some (r, c', out')
      → IsHonest f offsets c
      → IsHonest f offsets c'
  unfolding read
  read-IsHonest offsets c c' out out' r e v =
      let ((res, buffer, out1), _, e1) = bind-some (buffer_emit c.rec_buffer out) _ _ e in
      subst (IsHonest f offsets) (ap (λ q. q.1) (some-injective _ _ e1)) v

module _ (f : Floats) (o : Octets) where
  -- The states that a receiver can come to, each with the offsets of the data packets that it was
  -- given until then. It may be given any bytes.
  pub data Receives : List ℕ → Connection f → Type 0 where
    begins : (c : Connection f) → c.recv_dic ≡ [] → c.recv_hashmap ≡ [] → Receives [] c
    hears :
        {offsets : List ℕ} {c : Connection f} (c' : Connection f) (buf : List ℕ) (now : ℕ)
        (r : Result ℕ)
        → Receives offsets c
        → recv_slice f o c buf now ≡ some (r, c')
        → Receives (noting o buf offsets) c'
    answers :
        {offsets : List ℕ} {c : Connection f} (c' : Connection f) (out out' : List ℕ) (now : ℕ)
        (r : Result ℕ)
        → Receives offsets c
        → send_data f o c out now ≡ some (r, c', out')
        → Receives offsets c'
    reads :
        {offsets : List ℕ} {c : Connection f} (c' : Connection f) (out out' : List ℕ) (r : Result ℕ)
        → Receives offsets c
        → read f c out ≡ some (r, c', out')
        → Receives offsets c'

  pub Receives-IsHonest :
      (offsets : List ℕ) (c : Connection f) → Receives offsets c → IsHonest f offsets c
  Receives-IsHonest _ _ (begins c d m) =
      same-IsHonest f [] (record c { recv_dic = []; recv_hashmap = [] }) c (sym d) (sym m)
        (tt, λ k q. absurd (nothing_noted k q))
  Receives-IsHonest _ _ (hears {offsets} {c} c' buf now r before e) =
      recv_slice-IsHonest f o offsets c c' buf now r e (Receives-IsHonest offsets c before)
  Receives-IsHonest _ _ (answers {offsets} {c} c' out out' now r before e) =
      send_data-IsHonest f o offsets c c' out out' r now e (Receives-IsHonest offsets c before)
  Receives-IsHonest _ _ (reads {offsets} {c} c' out out' r before e) =
      read-IsHonest f offsets c c' out out' r e (Receives-IsHonest offsets c before)

  -- A receiver reports an offset as received, with a 0 in the map of which it makes an acknowledgement,
  -- only if it was given a data packet with that offset; and so in all states that it can come to, by
  -- any calls of `recv_slice`, on any bytes, of `send_data` and of `read`.
  pub report_is_honest :
      (offsets : List ℕ) (c : Connection f) (k : ℕ)
      → Receives offsets c
      → lookup k c.recv_hashmap ≡ some 0
      → member k offsets ≡ true
  report_is_honest offsets c k r e =
      let (t, a) = Receives-IsHonest offsets c r in
      a k (lookup-IsTrue c.recv_dic c.recv_hashmap k t e)
