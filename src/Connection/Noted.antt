-- ===== src/Connection/Noted.antt =====
-- What `Connection::recv_slice` of src/lib.rs notes as received and reports, packet by packet.
use dmludp.Prelude.{
  ℕ, zero, suc, ◌≡◌, refl, sym, ap, ◌∙◌, subst, Bool, true, false, if◌then◌else◌, ltb, ◌==◌, List,
  [], ◌∷◌, length, some, none, Option, arith, inl, inr, bind-some, add64, slice, slice_from,
  from_be_bytes, Bool-cases, if-false, if-true, ◌>>=◌,
}
use mathlib.Core.Option.{some-injective}
use dmludp.Prelude.Maps.{lookup, hash_insert, contains_key}
use dmludp.Error.{Result, ok, err, stopped}
use dmludp.Floats.{Floats}
use dmludp.Octets.{Octets}
use dmludp.Packet.{
  PacketType, Header, from_slice, application, elict_ack, handshake, ack, stop, retry, fin,
  start_ack,
}
use dmludp.RecvBuf.{RecvBuf, write as buffer_write}
use dmludp.Connection.{Connection}
use dmludp.Connection.Answer.{member}
use dmludp.Connection.Receive.{
  check_loop, check_loss, process_ack, recv_handshake, recv_request, recv_application, recv_packet,
}
use dmludp.Connection.Stream.Acked.{process_ack-Quiet}
use dmludp.Connection.Stream.Arrive.{last}

-- 0 stands for an offset that is noted as received.
abbrev pub IsTrue : List (ℕ × ℕ) → List (ℕ × ℕ) → Type 0
IsTrue dic [] = Unit
IsTrue dic ((k, v) ∷ m) = (v ≡ 0 → contains_key k dic ≡ true) × IsTrue dic m

pub lookup-IsTrue :
    (dic m : List (ℕ × ℕ)) (k : ℕ) → IsTrue dic m → lookup k m ≡ some 0 → contains_key k dic ≡ true
unfolding lookup
lookup-IsTrue dic [] k t e = cc
lookup-IsTrue dic ((j, v) ∷ m) k (h, t) e = elim (Bool-cases (j == k)) [
  | inl here ↦
      let same : j ≡ k = ground (arith, here) in
      subst (λ i. contains_key i dic ≡ true) same
        (h (some-injective _ _ (sym (if-true _ _ _ here) ∙ e)))
  | inr there ↦ lookup-IsTrue dic m k t (sym (if-false _ _ _ there) ∙ e)
]

-- More that is noted takes nothing away.
more-IsTrue :
    (dic dic' m : List (ℕ × ℕ))
    → ((k : ℕ) → contains_key k dic ≡ true → contains_key k dic' ≡ true)
    → IsTrue dic m
    → IsTrue dic' m
more-IsTrue dic dic' [] more t = tt
more-IsTrue dic dic' ((k, v) ∷ m) more (h, t) = (λ z. more k (h z), more-IsTrue dic dic' m more t)

pub nothing_noted : (k : ℕ) → contains_key {V = ℕ} k [] ≡ true → ⊥
unfolding contains_key
nothing_noted k e = cc

contains_key-hash_insert :
    (k j v : ℕ) (m : List (ℕ × ℕ))
    → contains_key j (hash_insert k v m) ≡ (if k == j then true else contains_key j m)
unfolding contains_key hash_insert
contains_key-hash_insert k j v [] = refl
contains_key-hash_insert k j v ((i, w) ∷ m) = ground (arith, contains_key-hash_insert k j v m)

pub or_true : (b b' : Bool) → b' ≡ true → (if b then true else b') ≡ true
or_true true b' q = refl
or_true false b' q = q

verdict-IsTrue :
    (dic m : List (ℕ × ℕ)) (offset : ℕ)
    → IsTrue dic m
    → IsTrue dic (hash_insert offset (if contains_key offset dic then 0 else 1) m)
unfolding hash_insert
verdict-IsTrue dic [] offset t = (λ z. ground (arith, z), tt)
verdict-IsTrue dic ((j, v) ∷ m) offset (h, t) = elim (Bool-cases (j == offset)) [
  | inl here ↦ rw here (λ z. ground (arith, z), t)
  | inr there ↦ rw there (h, verdict-IsTrue dic m offset t)
]

-- The offsets of the data packets that arrived, with that of `packet`, if it is one
abbrev pub note : PacketType → ℕ → List ℕ → List ℕ
note application offset offsets = offset ∷ offsets
note _ offset offsets = offsets

abbrev pub noting : Octets → List ℕ → List ℕ → List ℕ
noting o packet offsets = elim (from_slice o packet) [
  | err e ↦ offsets
  | ok h ↦ note h.ty h.offset offsets
]

check_loop-IsTrue :
    (o : Octets) (n : ℕ) (b : o.Buf) (dic m m' : List (ℕ × ℕ))
    → check_loop o n b dic m ≡ some m'
    → IsTrue dic m
    → IsTrue dic m'
unfolding check_loop
check_loop-IsTrue o zero b dic m m' e h = elim (Bool-cases (ltb 0 (o.cap b))) [
  | inl more ↦ absurd (ground (arith, more, e))
  | inr end ↦ subst (IsTrue dic) (some-injective _ _ (sym (if-false _ _ _ end) ∙ e)) h
]
check_loop-IsTrue o (suc n) b dic m m' e h = elim (Bool-cases (ltb 0 (o.cap b))) [
  | inl more ↦
      let ((offset, b'), _, e1) = bind-some (o.get_u64 b) _ _ (sym (if-true _ _ _ more) ∙ e) in
      check_loop-IsTrue o n b' dic _ m' e1 (verdict-IsTrue dic m offset h)
  | inr end ↦ subst (IsTrue dic) (some-injective _ _ (sym (if-false _ _ _ end) ∙ e)) h
]

module _ (f : Floats) where
  -- What is reported as received is noted, and what is noted did arrive.
  abbrev pub IsHonest : List ℕ → Connection f → Type 0
  IsHonest offsets c =
      IsTrue c.recv_dic c.recv_hashmap
      × ((k : ℕ) → contains_key k c.recv_dic ≡ true → member k offsets ≡ true)

  pub same-IsHonest :
      (offsets : List ℕ) (c c' : Connection f)
      → c.recv_dic ≡ c'.recv_dic
      → c.recv_hashmap ≡ c'.recv_hashmap
      → IsHonest offsets c
      → IsHonest offsets c'
  same-IsHonest offsets c c' d m (t, a) = (
    subst (IsTrue c'.recv_dic) m (subst (λ x. IsTrue x c.recv_hashmap) d t),
    subst (λ x. (k : ℕ) → contains_key k x ≡ true → member k offsets ≡ true) d a,
  )

  recv_request-IsHonest :
      (o : Octets) (offsets : List ℕ) (c c' : Connection f) (buf : List ℕ)
      → recv_request f o c buf ≡ some c'
      → IsHonest offsets c
      → IsHonest offsets c'
  unfolding recv_request check_loss
  recv_request-IsHonest o offsets c c' buf e (t, a) =
      let (num, _, e1) = bind-some (slice buf 1 9) _ _ e in
      let (payload, _, e2) = bind-some (slice_from buf 26) _ _ e1 in
      let (c1, checked, e3) =
        bind-some
          (check_loss f o (record c { recv_flag = true; send_num = from_be_bytes num }) payload) _ _
          e2 in
      let (m, looped, e4) =
        bind-some (check_loop o (length payload) (o.with_slice payload) c.recv_dic c.recv_hashmap) _
          _ checked in
      let true_still : IsTrue c.recv_dic m =
        check_loop-IsTrue o (length payload) (o.with_slice payload) c.recv_dic c.recv_hashmap m
          looped t in
      same-IsHonest offsets (record c { recv_hashmap = m }) c'
        (ap (λ x. x.recv_dic) (some-injective _ _ e4)
          ∙ ap (λ x. x.recv_dic) (some-injective _ _ e3))
        (ap (λ x. x.recv_hashmap) (some-injective _ _ e4)
          ∙ ap (λ x. x.recv_hashmap) (some-injective _ _ e3))
        (true_still, a)

  recv_application-IsHonest :
      (offsets : List ℕ) (c c' : Connection f) (h : Header) (buf : List ℕ) (r : Result ℕ)
      → recv_application f c h buf ≡ some (r, c')
      → IsHonest offsets c
      → IsHonest (h.offset ∷ offsets) c'
  unfolding recv_application
  recv_application-IsHonest offsets c c' h buf r e (t, a) =
      let (n, _, e1) = bind-some (add64 c.recv_count 1) _ _ e in
      let (payload, _, e2) = bind-some (slice_from buf 26) _ _ e1 in
      let ((wrote, buffer), _, e3) =
        bind-some (buffer_write c.rec_buffer payload h.offset) _ _ e2 in
      let (d, m) = stored n wrote buffer e3 in
      same-IsHonest (h.offset ∷ offsets)
        (record c { recv_dic = hash_insert h.offset h.priority c.recv_dic }) c' d m
        (
          more-IsTrue c.recv_dic (hash_insert h.offset h.priority c.recv_dic) c.recv_hashmap
              (λ k q.
                rw (contains_key-hash_insert h.offset k h.priority c.recv_dic)
                  (or_true (h.offset == k) _ q))
              t,
          λ k q.
              noted k (h.offset == k)
                (sym (contains_key-hash_insert h.offset k h.priority c.recv_dic) ∙ q),
        )
    where
      noted :
          (k : ℕ) (b : Bool)
          → (if b then true else contains_key k c.recv_dic) ≡ true
          → (if b then true else member k offsets) ≡ true
      noted k true q = refl
      noted k false q = a k q

      stored :
          (n : ℕ) (wrote : Result (Unit {0})) (buffer : RecvBuf)
          → ◌≡◌ {A = Option (Result ℕ × Connection f)}
              (elim wrote [
                | err e ↦ none
                | ok _ ↦ some (
                  ok h.pkt_length,
                  record c {
                    recv_count = n;
                    rec_buffer = buffer;
                    recv_dic = hash_insert h.offset h.priority c.recv_dic;
                  },
                )
              ])
              (some (r, c'))
          → (hash_insert h.offset h.priority c.recv_dic ≡ c'.recv_dic)
            × (c.recv_hashmap ≡ c'.recv_hashmap)
      stored n (err x) buffer e = cc
      stored n (ok x) buffer e = (
        ap (λ q. q.1.recv_dic) (some-injective _ _ e),
        ap (λ q. q.1.recv_hashmap) (some-injective _ _ e),
      )

  recv_ack-IsHonest :
      (offsets : List ℕ) (c c' : Connection f) (buf : List ℕ) (r : Result ℕ)
      → ◌≡◌ {A = Option (Result ℕ × Connection f)}
          (if c.is_server then (do c1 ← process_ack f c buf; some (ok 0, c1)) else some (ok 0, c))
          (some (r, c'))
      → IsHonest offsets c
      → IsHonest offsets c'
  recv_ack-IsHonest offsets c c' buf r e v = elim (Bool-cases c.is_server) [
    | inl server ↦
        let (c1, run, e1) = bind-some (process_ack f c buf) _ _ (sym (if-true _ _ _ server) ∙ e) in
        let (_, d, m) = process_ack-Quiet f c c1 buf run in
        subst (IsHonest offsets) (last f c1 c' (ok 0) r e1)
          (same-IsHonest offsets c c1 (sym d) (sym m) v)
    | inr client ↦
        subst (IsHonest offsets) (last f c c' (ok 0) r (sym (if-false _ _ _ client) ∙ e)) v
  ]

  recv_handshake-IsHonest :
      (offsets : List ℕ) (c : Connection f) (now : ℕ)
      → IsHonest offsets c
      → IsHonest offsets (recv_handshake f c now)
  unfolding recv_handshake
  recv_handshake-IsHonest offsets c now v =
      same-IsHonest offsets c (recv_handshake f c now) (ground arith) (ground arith) v

  pub recv_packet-IsHonest :
      (o : Octets) (offsets : List ℕ) (c c' : Connection f) (t : PacketType) (h : Header)
      (buf : List ℕ) (now : ℕ) (r : Result ℕ)
      → recv_packet f o c t h buf now ≡ some (r, c')
      → IsHonest offsets c
      → IsHonest (note t h.offset offsets) c'
  unfolding recv_packet
  recv_packet-IsHonest o offsets c c' handshake h buf now r e v =
      subst (IsHonest offsets) (last f (recv_handshake f c now) c' (ok 0) r e)
        (recv_handshake-IsHonest offsets c now v)
  recv_packet-IsHonest o offsets c c' elict_ack h buf now r e v =
      let (c1, run, e1) = bind-some (recv_request f o c buf) _ _ e in
      subst (IsHonest offsets) (last f c1 c' (ok 0) r e1)
        (recv_request-IsHonest o offsets c c1 buf run v)
  recv_packet-IsHonest o offsets c c' ack h buf now r e v = recv_ack-IsHonest offsets c c' buf r e v
  recv_packet-IsHonest o offsets c c' application h buf now r e v =
      recv_application-IsHonest offsets c c' h buf r e v
  recv_packet-IsHonest o offsets c c' stop h buf now r e v =
      subst (IsHonest offsets) (last f c c' (err stopped) r e) v
  recv_packet-IsHonest o offsets c c' retry h buf now r e v =
      subst (IsHonest offsets) (last f c c' (ok 0) r e) v
  recv_packet-IsHonest o offsets c c' fin h buf now r e v =
      subst (IsHonest offsets) (last f c c' (ok 0) r e) v
  recv_packet-IsHonest o offsets c c' start_ack h buf now r e v =
      subst (IsHonest offsets) (last f c c' (ok 0) r e) v
