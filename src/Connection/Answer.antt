-- ===== src/Connection/Answer.antt =====
-- What a receiver makes of a request for acknowledgement: `Connection::recv_slice` on `ElictAck`.
use dmludp.Prelude.{
  ℕ, zero, suc, ◌+◌, ◌≤◌, ◌<◌, ◌≡◌, refl, ap, ◌∙◌, Bool, true, false, ◌==◌, ltb, leb, if◌then◌else◌,
  List, [], ◌∷◌, length, some, arith, IsU64, u64_mod, to_be_bytes, length-be_digits,
  from_be_bytes-to_be_bytes, take-append_of_length, slice, add64-some,
}
use dmludp.Prelude.Maps.{lookup, hash_insert, contains_key, lookup-hash_insert}
use dmludp.Error.{ok}
use dmludp.Floats.{Floats}
use dmludp.Octets.{Octets, OctetsLaws}
use dmludp.Packet.{Header}
use dmludp.Packet.RoundTrip.{slice_from-encoded, encoded, length-encoded, from_slice-encoded}
use dmludp.Connection.{Connection}
use dmludp.Connection.Send.{request_header}
use dmludp.Connection.Receive.{check_loop, recv_request, recv_packet, recv_slice}
use dmludp.Connection.Request.{words, AllU64, length-words}

-- 0 for an offset that has arrived, and 1 for one that has not
abbrev pub verdict : List (ℕ × ℕ) → ℕ → ℕ
verdict dic offset = if contains_key offset dic then 0 else 1

abbrev pub answers : List (ℕ × ℕ) → List ℕ → List (ℕ × ℕ) → List (ℕ × ℕ)
answers dic [] m = m
answers dic (x ∷ xs) m = answers dic xs (hash_insert x (verdict dic x) m)

abbrev pub member : ℕ → List ℕ → Bool
member k [] = false
member k (x ∷ xs) = if x == k then true else member k xs

pub lookup-answers :
    (dic : List (ℕ × ℕ)) (xs : List ℕ) (m : List (ℕ × ℕ)) (k : ℕ)
    → lookup k (answers dic xs m) ≡ (if member k xs then some (verdict dic k) else lookup k m)
lookup-answers dic [] m k = refl
lookup-answers dic (x ∷ xs) m k =
    lookup-answers dic xs (hash_insert x (verdict dic x) m) k
    ∙ rw (lookup-hash_insert x k (verdict dic x) m) (ground arith)

module _ (o : Octets) (laws : OctetsLaws o) where
  -- As many rounds as there are bytes are enough.
  check_loop_lem :
      (xs : List ℕ) (rounds : ℕ) (b : o.Buf) (dic m : List (ℕ × ℕ))
      → AllU64 xs
      → o.ahead b ≡ words xs
      → length xs ≤ rounds
      → check_loop o rounds b dic m ≡ some (answers dic xs m)
  unfolding check_loop
  check_loop_lem [] zero b dic m u e h = rw (laws.cap_lem b, e)
  check_loop_lem [] (suc rounds) b dic m u e h = rw (laws.cap_lem b, e)
  check_loop_lem (x ∷ xs) zero b dic m u e h = absurd (omega arith)
  check_loop_lem (x ∷ xs) (suc rounds) b dic m (u, us) e h =
      let (b', got, rest) =
        laws.get_u64_lem b (to_be_bytes x) (words xs) (length-be_digits 8 x) e in
      let some_left : ltb 0 (o.cap b) ≡ true =
        rw (laws.cap_lem b, e) (ground (arith, length-words (x ∷ xs))) in
      rw (some_left, got, from_be_bytes-to_be_bytes x u)
        (check_loop_lem xs rounds b' dic (hash_insert x (verdict dic x) m) us rest (omega arith))

module _ (f : Floats) where
  -- the receiver behind the request with this number
  abbrev pub answered : Connection f → ℕ → List ℕ → Connection f
  answered r num offsets = record r {
    recv_count = r.recv_count + 1;
    recv_flag = true;
    send_num = num;
    recv_hashmap = answers r.recv_dic offsets r.recv_hashmap;
    feed_back = true;
  }

module _ (f : Floats) (o : Octets) (laws : OctetsLaws o) where
  recorded :
      (r : Connection f) (offsets : List ℕ)
      → AllU64 offsets
      → check_loop o
          (length (words offsets))
          (o.with_slice (words offsets))
          r.recv_dic
          r.recv_hashmap
        ≡ some (answers r.recv_dic offsets r.recv_hashmap)
  recorded r offsets u =
      check_loop_lem o laws offsets (length (words offsets)) (o.with_slice (words offsets))
        r.recv_dic r.recv_hashmap u (laws.with_slice_lem (words offsets)).1
        (omega (arith, length-words offsets))

  -- `buf[1..9]`
  number_at :
      (h : Header) (rest : List ℕ) → slice (encoded h rest) 1 9 ≡ some (to_be_bytes h.pkt_num)
  number_at h rest =
      rw (length-encoded, long (length rest))
        (ap some (take-append_of_length 8 (to_be_bytes h.pkt_num) _ (length-be_digits 8 h.pkt_num)))
    where
      long : (n : ℕ) → leb 9 (26 + n) ≡ true
      long n = ground arith

  recv_request_lem :
      (r : Connection f) (h : Header) (offsets : List ℕ)
      → IsU64 h.pkt_num
      → AllU64 offsets
      → recv_request f o r (encoded h (words offsets))
        ≡ some (record r {
          recv_flag = true;
          send_num = h.pkt_num;
          recv_hashmap = answers r.recv_dic offsets r.recv_hashmap;
          feed_back = true;
        })
  unfolding recv_request
  recv_request_lem r h offsets un u = rw (
    number_at h (words offsets),
    slice_from-encoded h (words offsets),
    from_be_bytes-to_be_bytes h.pkt_num un,
    recorded r offsets u,
  )

  pub recv_slice_lem :
      (r : Connection f) (num l now : ℕ) (offsets : List ℕ)
      → r.recv_count + 1 < u64_mod
      → IsU64 num
      → IsU64 l
      → AllU64 offsets
      → recv_slice f o r (encoded (request_header f num l) (words offsets)) now
        ≡ some (ok 0, answered f r num offsets)
  unfolding recv_slice recv_packet
  recv_slice_lem r num l now offsets h un ul u =
      let hdr : Header = request_header f num l in
      rw (
        length-encoded,
        not_empty (length (words offsets)),
        add64-some r.recv_count 1 h,
        from_slice-encoded o laws hdr (words offsets) (record {
          pkt_num_u64 = un;
          priority_u8 = omega arith;
          offset_u64 = omega arith;
          pkt_length_u64 = ul;
        }),
        recv_request_lem _ hdr offsets un u,
      )
    where
      not_empty : (n : ℕ) → (26 + n == 0) ≡ false
      not_empty n = ground arith
