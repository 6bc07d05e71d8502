-- ===== src/Ffi/Codes.antt =====
-- What C learns from the number that `quiche_conn_recv` returns.
use dmludp.Prelude.{
  ℕ, ◌+◌, ◌-◌, ◌^◌, ◌≤◌, ◌<◌, ◌≡◌, refl, ap, sym, ◌∙◌, length, some, arith, u64_mod, leb, ltb,
  false,
}
use dmludp.Error.{Error, ok, Code, pos, neg, to_c}
use dmludp.Floats.{Floats}
use dmludp.Octets.{Octets, OctetsLaws}
use dmludp.Packet.{Header, application}
use dmludp.Packet.RoundTrip.{encoded, length-encoded}
use dmludp.RangeBuf.{RangeBuf}
use dmludp.Connection.{Connection}
use dmludp.Connection.Receive.{recv_slice}
use dmludp.Connection.Deliver.{delivered, recv_slice_chunk}
use dmludp.Ffi.{code_of_size, as_ssize, quiche_conn_recv}

-- the number whose negative C gets
abbrev pub number_of : Code → ℕ
number_of (pos n) = n
number_of (neg n) = n

to_c-neg : (e : Error) → to_c e ≡ neg (number_of (to_c e))
unfolding to_c
to_c-neg e = ground arith

to_c-bounds : (e : Error) → (1 ≤ number_of (to_c e)) × (number_of (to_c e) ≤ 19)
unfolding to_c
to_c-bounds e = ground arith

-- A data packet whose header gives the length 2 ^ 64 - k for the error with the number -k
abbrev pub forged : Error → ℕ → ℕ → ℕ → Header
forged e pkt_num priority offset = record {
  ty = application;
  pkt_num = pkt_num;
  priority = priority;
  offset = offset;
  pkt_length = 2 ^ 64 - number_of (to_c e);
}

forged_code : (e : Error) → as_ssize (2 ^ 64 - number_of (to_c e)) ≡ to_c e
unfolding as_ssize
forged_code e =
    let (low, high) = to_c-bounds e in
    let size : ltb (2 ^ 64 - number_of (to_c e)) (2 ^ 63) ≡ false = ground (arith, high) in
    rw size (ap neg (omega (arith, high)) ∙ sym (to_c-neg e))

module _ (f : Floats) (o : Octets) (laws : OctetsLaws o) where
  -- The number that `quiche_conn_recv` returns is no sign of success: for every error there is a data
  -- packet that `recv_slice` accepts, and for which C gets the number of this error, since the
  -- length that the header gives is returned as a signed number. (Conditions: the fields have their
  -- sizes, and the counter and the end of the data stay below 2 ^ 64.)
  pub every_error_is_forged :
      (e : Error) (r : Connection f) (b : RangeBuf) (pkt_num priority now : ℕ)
      → pkt_num < u64_mod
      → priority < 256
      → r.recv_count + 2 < u64_mod
      → b.off + length b.bytes < u64_mod
      → 26 + length b.bytes < 2 ^ 63
      → let packet = encoded (forged e pkt_num priority b.off) b.bytes in
        (recv_slice f o r packet now
          ≡ some (ok (2 ^ 64 - number_of (to_c e)), delivered f r b priority))
        × (quiche_conn_recv f o r packet now ≡ some (to_c e, delivered f r b priority))
  unfolding quiche_conn_recv code_of_size
  every_error_is_forged e r b pkt_num priority now n p counted fits short =
      let h : Header = forged e pkt_num priority b.off in
      let (low, high) = to_c-bounds e in
      let accepted =
        recv_slice_chunk f o laws r h b now
          (record {
            pkt_num_u64 = n;
            priority_u8 = p;
            offset_u64 = omega (arith, fits);
            pkt_length_u64 = omega (arith, low);
          })
          refl refl counted fits in
      let small : leb (2 ^ 63) (length (encoded h b.bytes)) ≡ false =
        ground (arith, length-encoded h b.bytes, short) in
      (
        accepted,
        rw (small, accepted) (ap (λ x. some (x, delivered f r b priority)) (forged_code e)),
      )
