-- ===== src/Error.antt =====
-- `Error`, `Result` and `Error::to_c` of src/lib.rs.
use dmludp.Prelude.{ℕ}

pub data Error : Type 0 where
  done buffer_too_short unknown_version invalid_frame invalid_packet invalid_state : Error
  invalid_stream_state : ℕ → Error
  invalid_transport_param crypto_fail tls_fail flow_control stream_limit : Error
  stream_stopped stream_reset : ℕ → Error
  final_size congestion_control id_limit out_of_identifiers stopped : Error

pub data Result {ℓ} (A : Type ℓ) : Type ℓ where
  ok : A → Result A
  err : Error → Result A

-- The numbers that C sees: `pos n` is n, and `neg n` is -n.
pub data Code : Type 0 where
  pos neg : ℕ → Code

unfoldable pub to_c : Error → Code
to_c done = neg 1
to_c buffer_too_short = neg 2
to_c unknown_version = neg 3
to_c invalid_frame = neg 4
to_c invalid_packet = neg 5
to_c invalid_state = neg 6
to_c (invalid_stream_state _) = neg 7
to_c invalid_transport_param = neg 8
to_c crypto_fail = neg 9
to_c tls_fail = neg 10
to_c flow_control = neg 11
to_c stream_limit = neg 12
to_c final_size = neg 13
to_c congestion_control = neg 14
to_c (stream_stopped _) = neg 15
to_c (stream_reset _) = neg 16
to_c id_limit = neg 17
to_c out_of_identifiers = neg 18
to_c stopped = neg 19
