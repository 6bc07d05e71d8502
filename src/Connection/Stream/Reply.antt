-- ===== src/Connection/Stream/Reply.antt =====
-- `Connection::send_data` of src/lib.rs on the receiver of a stream, which makes its answers.
use dmludp.Prelude.{
  ap, ◌⊎◌, inl, inr, ℕ, ◌≡◌, refl, sym, subst, Bool, true, false, if◌then◌else◌, leb, List, [],
  ◌++◌, length, take, some, none, Option, arith, add64, ◌*◌, ◌>>=◌, slice_from,
}
use dmludp.Error.{Result, ok, err}
use dmludp.Floats.{Floats}
use dmludp.Octets.{Octets}
use dmludp.Packet.{
  PacketType, Header, application, elict_ack, handshake, ack, stop, retry, fin, start_ack,
}
use dmludp.SendBuf
use dmludp.SendBuf.{is_nil}
use dmludp.RecvBuf.{RecvBuf}
use dmludp.Connection.{Connection}
use dmludp.Connection.{is_stopped, set_handshake, max_ack, write_pkt_type}
use dmludp.Connection.Wire.{put_header, put_request, put_ack}
use dmludp.Connection.Send.{
  Sent, finish, count_chunk, end_chunk, send_chunk, send_emitted, send_application, end_request,
  send_request, send_offsets, pending, request_length, send_handshake, bare, send_stop, end_ack,
  send_acknowledgement, ack_header, send_packet, send_data,
}
use dmludp.Connection.Slices.{AllHeld}
use dmludp.Connection.Stream.Arrive.{Held}

module _ (f : Floats) (o : Octets) where
  -- what a receiver has stored and noted
  abbrev Noted : Type 0
  Noted = RecvBuf × List (ℕ × ℕ) × List (ℕ × ℕ)

  abbrev base : Connection f → Noted
  base c = (c.rec_buffer, c.recv_dic, c.recv_hashmap)

  -- What is sent leaves it, but that the notes for an acknowledgement may be used up.
  Keeps : Noted → Sent f → Type 0
  Keeps b none = Unit
  Keeps b (some (r, c, out)) =
      (c.rec_buffer ≡ b.0) × (c.recv_dic ≡ b.1) × ((c.recv_hashmap ≡ b.2) ⊎ (c.recv_hashmap ≡ []))

  stays :
      (c c1 : Connection f) (r : Result ℕ) (out : List ℕ)
      → base c1 ≡ base c
      → Keeps (base c) (some (r, c1, out))
  unfolding Keeps
  stays c c1 r out e = (ap (λ b. b.0) e, ap (λ b. b.1) e, inl (ap (λ b. b.2) e))

  -- the notes may have been used up before
  used_up :
      (c : Connection f) (x : Sent f)
      → Keeps (base (record c { recv_hashmap = [] })) x
      → Keeps (base c) x
  unfolding Keeps
  used_up c none k = tt
  used_up c (some (r, c1, out)) (b, d, inl m) = (b, d, inr m)
  used_up c (some (r, c1, out)) (b, d, inr m) = (b, d, inr m)

  bind-Keeps :
      {A : Type 0} (b : Noted) (m : Option A) (k : A → Sent f)
      → ((a : A) → m ≡ some a → Keeps b (k a))
      → Keeps b (m >>= k)
  unfolding Keeps
  bind-Keeps b none k h = tt
  bind-Keeps b (some a) k h = h a refl

  if-Keeps :
      (b : Noted) (t : Bool) (x y : Sent f) → Keeps b x → Keeps b y → Keeps b (if t then x else y)
  if-Keeps b true x y p q = p
  if-Keeps b false x y p q = q

  finish-Keeps :
      (c : Connection f) (psize now : ℕ) (out : List ℕ) → Keeps (base c) (finish f c psize out now)
  unfolding finish Keeps
  finish-Keeps c psize now out =
      if-Keeps (base c) (is_stopped f c) _ _ (refl, refl, inl refl)
        (bind-Keeps (base c) (add64 26 psize) _ (λ total _. (refl, refl, inl refl)))

  count_chunk-same :
      (c c1 : Connection f) (off p : ℕ) → count_chunk f c off ≡ some (p, c1) → base c1 ≡ base c
  unfolding count_chunk
  count_chunk-same c c1 off p e = ground arith

  end_chunk-Keeps :
      (w : Result (Unit {0}) × List ℕ) (c : Connection f) (n off now : ℕ) (stopped : Bool)
      → Keeps (base c) (end_chunk f w c n off stopped now)
  unfolding end_chunk Keeps
  end_chunk-Keeps (err e, out) c n off now stopped = (refl, refl, inl refl)
  end_chunk-Keeps (ok u, out) c n off now stopped = finish-Keeps _ n now out

  send_emitted-Keeps :
      (res : Result (ℕ × ℕ × Bool)) (c : Connection f) (now : ℕ) (out : List ℕ)
      → Keeps (base c) (send_emitted f o res c out now)
  unfolding send_emitted send_chunk Keeps
  send_emitted-Keeps (err e) c now out = finish-Keeps c 0 now out
  send_emitted-Keeps (ok (n, off, stopped)) c now out =
      let hdr : ℕ → Header = λ p. record {
        ty = application;
        pkt_num = c.data_space.next_pkt_num;
        priority = p;
        offset = off;
        pkt_length = n;
      } in
      if-Keeps (base c) (leb c.written_data off) _ _ (refl, refl, inl refl)
        (bind-Keeps (base c) (count_chunk f c off) _ (λ q counted.
          subst (λ b. Keeps b (end_chunk f (put_header o (hdr q.0) out) q.1 n off stopped now))
            (count_chunk-same c q.1 off q.0 counted)
            (end_chunk-Keeps (put_header o (hdr q.0) out) q.1 n off now stopped)))

  send_application-Keeps :
      (c : Connection f) (out : List ℕ) (now : ℕ) → Keeps (base c) (send_application f o c out now)
  unfolding send_application
  send_application-Keeps c out now = bind-Keeps (base c) (slice_from out 26) _ (λ payload _.
      bind-Keeps (base c) (SendBuf.emit c.send_buffer payload) _
        (λ q _. send_emitted-Keeps q.0 (record c { send_buffer = q.1 }) now (take 26 out ++ q.2)))

  end_request-Keeps :
      (w : Result (Unit {0}) × List ℕ) (c : Connection f) (psize : ℕ)
      → Keeps (base c) (end_request f w c psize)
  unfolding end_request Keeps
  end_request-Keeps (err e, out) c psize = (refl, refl, inl refl)
  end_request-Keeps (ok u, out) c psize =
      bind-Keeps (base c) (add64 26 psize) _ (λ total _. (refl, refl, inl refl))

  send_request-Keeps : (c : Connection f) (out : List ℕ) → Keeps (base c) (send_request f o c out)
  unfolding send_request send_offsets
  send_request-Keeps c out = bind-Keeps (base c) (add64 c.ack_space.next_pkt_num 1) _ (λ next _.
      let s = c.ack_space in
      let c1 : Connection f = record c { ack_space = record s { next_pkt_num = next } } in
      bind-Keeps (base c) (pending f c1) _ (λ offsets _.
        bind-Keeps (base c) (put_request o _ offsets out) _
          (λ w _. end_request-Keeps w c1 (request_length f c1 offsets))))

  send_handshake-Keeps :
      (c : Connection f) (out : List ℕ) (now : ℕ) → Keeps (base c) (send_handshake f o c out now)
  unfolding send_handshake
  send_handshake-Keeps c out now = split (put_header o (bare f handshake) out)
    where
      answered : Connection f
      answered = if c.server then set_handshake f c now else record c { feed_back = false }

      same : base answered ≡ base c
      same = ground arith

      split :
          (w : Result (Unit {0}) × List ℕ)
          → Keeps
              (base c)
              (elim w.0 [ err e ↦ some (err e, c, w.1) | ok _ ↦ finish f answered 0 w.1 now ])
      split (err e, out') = unfold Keeps in (refl, refl, inl refl)
      split (ok u, out') =
          subst (λ b. Keeps b (finish f answered 0 out' now)) same
            (finish-Keeps answered 0 now out')

  send_stop-Keeps : (c : Connection f) (out : List ℕ) → Keeps (base c) (send_stop f o c out)
  unfolding send_stop Keeps
  send_stop-Keeps c out = split (put_header o (bare f stop) out)
    where
      split :
          (w : Result (Unit {0}) × List ℕ)
          → Keeps (base c) (elim w.0 [ err e ↦ some (err e, c, w.1) | ok _ ↦ some (ok 26, c, w.1) ])
      split (err e, out') = (refl, refl, inl refl)
      split (ok u, out') = (refl, refl, inl refl)

  end_ack-Keeps :
      (w : Result (Unit {0}) × List ℕ) (c : Connection f) (psize now : ℕ)
      → Keeps (base c) (end_ack f w c psize now)
  unfolding end_ack Keeps
  end_ack-Keeps (err e, out) c psize now = (refl, refl, inl refl)
  end_ack-Keeps (ok u, out) c psize now =
      used_up c _ (finish-Keeps (record c { recv_hashmap = [] }) psize now out)

  send_acknowledgement-Keeps :
      (c : Connection f) (out : List ℕ) (now : ℕ)
      → Keeps (base c) (send_acknowledgement f o c out now)
  unfolding send_acknowledgement
  send_acknowledgement-Keeps c out now =
      bind-Keeps (base c) (add64 (length c.recv_hashmap * 8 * 2) 8) _ (λ psize _.
        end_ack-Keeps
          (put_ack o (ack_header f (record c { feed_back = false }) psize)
            (max_ack f (record c { feed_back = false })) c.recv_hashmap out)
          (record c { feed_back = false }) psize now)

  send_packet-Keeps :
      (t : PacketType) (c : Connection f) (out : List ℕ) (now : ℕ)
      → Keeps (base c) (send_packet f o t c out now)
  unfolding send_packet
  send_packet-Keeps handshake c out now = send_handshake-Keeps c out now
  send_packet-Keeps ack c out now = send_acknowledgement-Keeps c out now
  send_packet-Keeps elict_ack c out now = send_request-Keeps c out
  send_packet-Keeps application c out now = send_application-Keeps c out now
  send_packet-Keeps stop c out now = send_stop-Keeps c out
  send_packet-Keeps retry c out now = finish-Keeps c 0 now out
  send_packet-Keeps fin c out now = finish-Keeps c 0 now out
  send_packet-Keeps start_ack c out now = finish-Keeps c 0 now out

  write_pkt_type-same : (c : Connection f) → base (write_pkt_type f c).1 ≡ base c
  unfolding write_pkt_type
  write_pkt_type-same c = ground arith

  send_data-Keeps :
      (c : Connection f) (out : List ℕ) (now : ℕ) → Keeps (base c) (send_data f o c out now)
  unfolding send_data
  send_data-Keeps c out now =
      if-Keeps (base c) (is_nil out) _ _ (unfold Keeps in (refl, refl, inl refl))
        (split (write_pkt_type f c) (write_pkt_type-same c))
    where
      split :
          (t : Result PacketType × Connection f)
          → base t.1 ≡ base c
          → Keeps
              (base c)
              (elim t.0 [ err e ↦ some (err e, t.1, out) | ok ty ↦ send_packet f o ty t.1 out now ])
      split (err e, c1) same = stays c c1 (err e) out same
      split (ok ty, c1) same =
          subst (λ b. Keeps b (send_packet f o ty c1 out now)) same
            (send_packet-Keeps ty c1 out now)

  -- What a receiver sends does not touch what it holds, nor which offsets it has noted as received.
  pub send_data-Noted :
      (c c' : Connection f) (out out' : List ℕ) (r : Result ℕ) (now : ℕ)
      → send_data f o c out now ≡ some (r, c', out')
      → (c'.rec_buffer ≡ c.rec_buffer)
        × (c'.recv_dic ≡ c.recv_dic)
        × ((c'.recv_hashmap ≡ c.recv_hashmap) ⊎ (c'.recv_hashmap ≡ []))
  unfolding Keeps
  send_data-Noted c c' out out' r now e = subst (Keeps (base c)) e (send_data-Keeps c out now)

  pub send_data-Held :
      (d : List ℕ) (c c' : Connection f) (out out' : List ℕ) (r : Result ℕ) (now : ℕ)
      → send_data f o c out now ≡ some (r, c', out')
      → Held f d c
      → Held f d c'
  send_data-Held d c c' out out' r now e a =
      let (same, _, _) = send_data-Noted c c' out out' r now e in
      subst (λ b. AllHeld d b.chunks) (sym same) a
