-- ===== src/Sockets/Example.antt =====
-- A concrete `Libc` on a big-endian machine, as an example of its laws.
use dmludp.Prelude.{ℕ, refl, [], from_be_bytes}
use dmludp.Sockets.{Libc, LibcLaws, SockaddrIn, SockaddrIn6}

pub data Memory : Type 0 where
  in4 : SockaddrIn → Memory
  in6 : SockaddrIn6 → Memory

abbrev family : Memory → ℕ
family (in4 a) = a.sin_family
family (in6 a) = a.sin6_family

-- a structure is read as the other one only where the family is wrong
abbrev read_in : Memory → SockaddrIn
read_in (in4 a) = a
read_in (in6 a) = record {
  sin_family = a.sin6_family;
  sin_port = a.sin6_port;
  s_addr = a.sin6_flowinfo;
}

abbrev read_in6 : Memory → SockaddrIn6
read_in6 (in6 a) = a
read_in6 (in4 a) = record {
  sin6_family = a.sin_family;
  sin6_port = a.sin_port;
  sin6_flowinfo = a.s_addr;
  s6_addr = [];
  sin6_scope_id = 0;
}

abbrev pub big_endian : Libc
big_endian = record {
  Storage = Memory;
  af_inet = 2;
  af_inet6 = 10;
  size_in = 16;
  size_in6 = 28;
  family = family;
  read_in = read_in;
  read_in6 = read_in6;
  write_in = λ a _. in4 a;
  write_in6 = λ a _. in6 a;
  to_be16 = λ n. n;
  from_be16 = λ n. n;
  from_be32 = λ n. n;
  from_ne_bytes32 = from_be_bytes;
}

pub big_endian-LibcLaws : LibcLaws big_endian
big_endian-LibcLaws = record {
  read_in-write_in = λ a s. refl;
  read_in6-write_in6 = λ a s. refl;
  family-write_in = λ a s. refl;
  family-write_in6 = λ a s. refl;
  families = λ e. cc;
  from_be16-to_be16 = λ n h. refl;
  from_be32-from_ne_bytes32 = λ bs l b. refl;
}
