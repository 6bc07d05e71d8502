-- ===== src/Sockets.antt =====
-- What src/ffi.rs uses of `libc`, which is not part of the repository: the structures for addresses
-- and the memory that holds one, and the byte order of the machine.
pub mod Example
use dmludp.Prelude.{ℕ, ◌<◌, ◌^◌, ◌≡◌, ◌≢◌, List, [], ◌∷◌, length, from_be_bytes, refl, arith}

pub record SockaddrIn : Type 0 where
  pub sin_family : ℕ
  pub sin_port : ℕ
  pub s_addr : ℕ

pub record SockaddrIn6 : Type 0 where
  pub sin6_family : ℕ
  pub sin6_port : ℕ
  pub sin6_flowinfo : ℕ
  pub s6_addr : List ℕ
  pub sin6_scope_id : ℕ

-- `Storage` is the memory behind a pointer to an address.
pub record Libc : Type 1 where
  pub Storage : Type 0
  pub af_inet : ℕ
  pub af_inet6 : ℕ
  pub size_in : ℕ
  pub size_in6 : ℕ
  pub family : Storage → ℕ
  pub read_in : Storage → SockaddrIn
  pub read_in6 : Storage → SockaddrIn6
  pub write_in : SockaddrIn → Storage → Storage
  pub write_in6 : SockaddrIn6 → Storage → Storage
  pub to_be16 : ℕ → ℕ
  pub from_be16 : ℕ → ℕ
  pub from_be32 : ℕ → ℕ
  pub from_ne_bytes32 : List ℕ → ℕ

abbrev pub AllBytes : List ℕ → Type 0
AllBytes [] = Unit
AllBytes (b ∷ bs) = (b < 256) × AllBytes bs

-- The documented behaviour: a structure that was written is read back, both structures begin with
-- the family, and the conversions turn host order into big-endian order and back.
pub record LibcLaws (l : Libc) : Type 0 where
  pub read_in-write_in : (a : SockaddrIn) (s : l.Storage) → l.read_in (l.write_in a s) ≡ a
  pub read_in6-write_in6 : (a : SockaddrIn6) (s : l.Storage) → l.read_in6 (l.write_in6 a s) ≡ a
  pub family-write_in : (a : SockaddrIn) (s : l.Storage) → l.family (l.write_in a s) ≡ a.sin_family
  pub family-write_in6 :
      (a : SockaddrIn6) (s : l.Storage) → l.family (l.write_in6 a s) ≡ a.sin6_family
  pub families : l.af_inet6 ≢ l.af_inet
  pub from_be16-to_be16 : (n : ℕ) → n < 2 ^ 16 → l.from_be16 (l.to_be16 n) ≡ n
  pub from_be32-from_ne_bytes32 :
      (bs : List ℕ)
      → length bs ≡ 4
      → AllBytes bs
      → l.from_be32 (l.from_ne_bytes32 bs) ≡ from_be_bytes bs
