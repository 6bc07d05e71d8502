-- ===== src/Connection/Wire.antt =====
-- What `Connection::send_data` of src/lib.rs writes with a cursor into the packet that it makes.
use dmludp.Prelude.{ℕ, ◌≡◌, refl, ap, ◌∙◌, List, [], ◌∷◌, ◌++◌, Option, some, none}
use dmludp.Error.{Result, ok, err, Error, buffer_too_short}
use dmludp.Octets.{Octets, Io, put_u8, put_u64, writing, then_run}
use dmludp.Packet.{Header, to_bytes, byte_of_type}

module _ (o : Octets) where
  -- `for i in 0..res.len() { b.put_u64(res[i])?; }`
  unfoldable pub put_all : List ℕ → Io o (Unit {0})
  put_all [] b = (ok tt, b)
  put_all (x ∷ xs) b = then_run (put_u64 o x b) (λ _. put_all xs)

  -- the `for (key, val) in self.recv_hashmap.iter()` of an acknowledgement
  unfoldable pub put_pairs : List (ℕ × ℕ) → Io o (Unit {0})
  put_pairs [] b = (ok tt, b)
  put_pairs ((k, v) ∷ m) b =
      then_run (put_u64 o k b) (λ _ b1. then_run (put_u64 o v b1) (λ _. put_pairs m))

  -- the slice below a cursor
  abbrev pub slice_of : o.Buf → List ℕ
  slice_of b = o.behind b ++ o.ahead b

  -- `hdr.to_bytes(&mut b)?` on `out`
  unfoldable pub put_header : Header → List ℕ → Result (Unit {0}) × List ℕ
  put_header h out = let (r, b) = to_bytes o h (o.with_slice out) in (r, slice_of b)

  -- the header of an acknowledgement, the mark, and what was received
  unfoldable pub put_ack : Header → ℕ → List (ℕ × ℕ) → List ℕ → Result (Unit {0}) × List ℕ
  unfolding put_pairs
  put_ack h max_off pairs out =
      let (r, b) =
        then_run (to_bytes o h (o.with_slice out))
          (λ _ b1. then_run (put_u64 o max_off b1) (λ _. put_pairs pairs)) in
      (r, slice_of b)

  -- The header and the offsets of a request for acknowledgement: the header is put with `unwrap`,
  -- the offsets with `?`.
  unfoldable pub put_request : Header → List ℕ → List ℕ → Option (Result (Unit {0}) × List ℕ)
  unfolding put_all
  put_request h offsets out =
      let (r, b) = to_bytes o h (o.with_slice out) in
      elim r [ err e ↦ none | ok _ ↦ let (r', b') = put_all offsets b in some (r', slice_of b') ]

  -- Code that fails only for want of room.
  abbrev IsShort : {A : Type 0} → Io o A → Type 0
  IsShort m = (b b' : o.Buf) (e : Error) → m b ≡ (err e, b') → e ≡ buffer_too_short

  writing-IsShort :
      (r : Option o.Buf) (b b' : o.Buf) (e : Error)
      → writing o r b ≡ (err e, b')
      → e ≡ buffer_too_short
  writing-IsShort none b b' e p = cc
  writing-IsShort (some b1) b b' e p = cc

  then_run-IsShort :
      {A : Type 0} {C : Type 0} (m : Io o A) (k : A → Io o C)
      → IsShort m
      → ((a : A) → IsShort (k a))
      → IsShort (λ b. then_run (m b) k)
  then_run-IsShort {A} {C} m k hm hk b b' e p = split (m b) refl p
    where
      split : (r : Result A × o.Buf) → m b ≡ r → then_run r k ≡ (err e, b') → e ≡ buffer_too_short
      split (ok a, b1) q p = hk a b1 b' e p
      split (err e', b1) q p = hm b b' e (q ∙ same)
        where
          same : ◌≡◌ {A = Result A × o.Buf} (err e', b1) (err e, b')
          same = cc

  word-IsShort : (x : ℕ) → IsShort (put_u64 o x)
  word-IsShort x b b' e = writing-IsShort (o.put_u64 x b) b b' e

  byte-IsShort : (x : ℕ) → IsShort (put_u8 o x)
  byte-IsShort x b b' e = writing-IsShort (o.put_u8 x b) b b' e

  pub put_all-IsShort : (xs : List ℕ) → IsShort (put_all xs)
  unfolding put_all
  put_all-IsShort [] b b' e p = cc
  put_all-IsShort (x ∷ xs) b b' e p =
      then_run-IsShort (put_u64 o x) (λ _. put_all xs) (word-IsShort x) (λ _. put_all-IsShort xs) b
        b' e p

  to_bytes-IsShort : (h : Header) → IsShort (to_bytes o h)
  unfolding to_bytes
  to_bytes-IsShort h =
      then_run-IsShort (put_u8 o (byte_of_type h.ty)) _ (byte-IsShort (byte_of_type h.ty)) (λ _.
        then_run-IsShort (put_u64 o h.pkt_num) _ (word-IsShort h.pkt_num) (λ _.
          then_run-IsShort (put_u8 o h.priority) _ (byte-IsShort h.priority) (λ _.
            then_run-IsShort (put_u64 o h.offset) _ (word-IsShort h.offset)
              (λ _. word-IsShort h.pkt_length))))

  pub put_header-IsShort :
      (h : Header) (out out' : List ℕ) (e : Error)
      → put_header h out ≡ (err e, out')
      → e ≡ buffer_too_short
  unfolding put_header
  put_header-IsShort h out out' e p =
      to_bytes-IsShort h (o.with_slice out) (to_bytes o h (o.with_slice out)).1 e q
    where
      q : to_bytes o h (o.with_slice out) ≡ (err e, (to_bytes o h (o.with_slice out)).1)
      q = ap (λ r. (r, (to_bytes o h (o.with_slice out)).1)) (ap (λ x. x.0) p)

  pub put_request-IsShort :
      (h : Header) (offsets out out' : List ℕ) (e : Error)
      → put_request h offsets out ≡ some (err e, out')
      → e ≡ buffer_too_short
  unfolding put_request
  put_request-IsShort h offsets out out' e p =
      split (to_bytes o h (o.with_slice out)).0 (to_bytes o h (o.with_slice out)).1 p
    where
      split :
          (r : Result (Unit {0})) (b : o.Buf)
          → ◌≡◌ {A = Option (Result (Unit {0}) × List ℕ)}
              (elim r [
                | err e ↦ none
                | ok _ ↦ some ((put_all offsets b).0, slice_of (put_all offsets b).1)
              ])
              (some (err e, out'))
          → e ≡ buffer_too_short
      split (err e1) b q = cc
      split (ok u) b q = put_all-IsShort offsets b (put_all offsets b).1 e failed
        where
          failed : put_all offsets b ≡ (err e, (put_all offsets b).1)
          failed = ap (λ r. (r, (put_all offsets b).1)) same
            where
              same : (put_all offsets b).0 ≡ err e
              same = cc
