-- ===== src/Ffi.antt =====
-- src/ffi.rs, the functions for C, as they are built on a system that is not Windows. A pointer to a
-- state is the state; a null pointer is `none`, and a panic is `none` around it.

pub mod Address
pub mod Codes
mod Tests
use dmludp.Prelude.{
  ℕ, ◌-◌, ◌^◌, ltb, leb, Bool, true, false, if◌then◌else◌, Option, some, none, List, length,
  be_digits, ◌>>=◌, ◌==◌,
}
use Prim.Native.String.{String}
use dmludp.Error.{Error, Result, ok, err, Code, pos, neg, to_c}
use dmludp.Floats.{Floats}
use dmludp.Octets.{Octets}
use dmludp.Config.{Config, new, set_cc_algorithm_name, set_cc_algorithm, CongestionControlAlgorithm}
use dmludp.Connection.{Connection, accept, connect, is_closed, is_timed_out}
use dmludp.Connection.Receive.{recv_slice}
use dmludp.Connection.Fill.{send_all}
use dmludp.Sockets.{Libc}

-- `SocketAddr`, the address as its octets
pub data SocketAddr : Type 0 where
  -- the octets and the port
  v4 : List ℕ → ℕ → SocketAddr
  -- the octets, the port, the flow information and the scope
  v6 : List ℕ → ℕ → ℕ → ℕ → SocketAddr

module _ (l : Libc) where
  unfoldable pub std_addr_from_c : l.Storage → ℕ → Option SocketAddr
  std_addr_from_c addr addr_len =
      if l.family addr == l.af_inet
      then (if addr_len == l.size_in
          then (let in4 = l.read_in addr in
              some (v4 (be_digits 4 (l.from_be32 in4.s_addr)) (l.from_be16 in4.sin_port)))
          else none)
      else if l.family addr == l.af_inet6
      then (if addr_len == l.size_in6
          then (let in6 = l.read_in6 addr in
              some (v6 in6.s6_addr (l.from_be16 in6.sin6_port) in6.sin6_flowinfo in6.sin6_scope_id))
          else none)
      else none

  -- Returns the length, and the storage that it fills.
  unfoldable pub std_addr_to_c : SocketAddr → l.Storage → ℕ × l.Storage
  std_addr_to_c (v4 ip port) out = (
    l.size_in,
    l.write_in
        (record {
          sin_family = l.af_inet;
          sin_port = l.to_be16 port;
          s_addr = l.from_ne_bytes32 ip;
        })
        out,
  )
  std_addr_to_c (v6 ip port flowinfo scope_id) out = (
    l.size_in6,
    l.write_in6
        (record {
          sin6_family = l.af_inet6;
          sin6_port = l.to_be16 port;
          sin6_flowinfo = flowinfo;
          s6_addr = ip;
          sin6_scope_id = scope_id;
        })
        out,
  )

-- `as ssize_t` of a usize
abbrev pub ssize_end : ℕ
ssize_end = 2 ^ 63

unfoldable pub as_ssize : ℕ → Code
as_ssize v = if ltb v ssize_end then pos v else neg (2 ^ 64 - v)

-- the number that C gets for a result
unfoldable pub code_of_size : Result ℕ → Code
unfolding as_ssize
code_of_size (ok v) = as_ssize v
code_of_size (err e) = to_c e

unfoldable pub code_of_flag : Result Bool → Code
code_of_flag (ok v) = pos (if v then 1 else 0)
code_of_flag (err e) = to_c e

unfoldable pub quiche_config_new : Option Config
unfolding new
quiche_config_new = elim new [ ok c ↦ some c | err e ↦ none ]

-- The name is what `CStr::to_str` makes of the pointer: none where the bytes are not UTF-8, which
-- `unwrap` panics on.
unfoldable pub quiche_config_set_cc_algorithm_name : Config → Option String → Option (Code × Config)
unfolding set_cc_algorithm_name
quiche_config_set_cc_algorithm_name config to_str = do
  name ← to_str
  let (r, config') = set_cc_algorithm_name config name
  some (elim r [ ok _ ↦ (pos 0, config') | err e ↦ (to_c e, config') ])

unfoldable pub quiche_config_set_cc_algorithm : Config → CongestionControlAlgorithm → Config
unfolding set_cc_algorithm
quiche_config_set_cc_algorithm config algo = set_cc_algorithm config algo

module _ (f : Floats) where
  -- the pointer for a new connection
  unfoldable pub pointer : Result (Connection f) → Option (Connection f)
  pointer (ok c) = some c
  pointer (err e) = none

  unfoldable pub quiche_accept :
      (l : Libc) → l.Storage → ℕ → l.Storage → ℕ → Config → ℕ → Option (Option (Connection f))
  unfolding std_addr_from_c accept pointer
  quiche_accept l local local_len peer peer_len config now = do
    local' ← std_addr_from_c l local local_len
    peer' ← std_addr_from_c l peer peer_len
    r ← accept f config now
    some (pointer r)

  unfoldable pub quiche_connect :
      (l : Libc) → l.Storage → ℕ → l.Storage → ℕ → Config → ℕ → Option (Option (Connection f))
  unfolding std_addr_from_c connect pointer
  quiche_connect l local local_len peer peer_len config now = do
    local' ← std_addr_from_c l local local_len
    peer' ← std_addr_from_c l peer peer_len
    r ← connect f config now
    some (pointer r)

  unfoldable pub quiche_conn_send_all : Connection f → ℕ → Option (Code × Connection f)
  unfolding send_all code_of_flag
  quiche_conn_send_all conn now = do (r, conn') ← send_all f conn now; some (code_of_flag r, conn')

  -- `info`, which the function does not read, is left out.
  unfoldable pub quiche_conn_recv :
      Octets → Connection f → List ℕ → ℕ → Option (Code × Connection f)
  unfolding recv_slice code_of_size
  quiche_conn_recv o conn buf now =
      if leb ssize_end (length buf)
      then none
      else (do (r, conn') ← recv_slice f o conn buf now; some (code_of_size r, conn'))

  unfoldable pub quiche_conn_is_closed : Connection f → Bool
  unfolding is_closed
  quiche_conn_is_closed conn = is_closed f conn

  unfoldable pub quiche_conn_is_timed_out : Connection f → Bool
  unfolding is_timed_out
  quiche_conn_is_timed_out conn = is_timed_out f conn
