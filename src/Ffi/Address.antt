-- ===== src/Ffi/Address.antt =====
-- Addresses on their way to C and back.
use dmludp.Prelude.{
  ℕ, ◌^◌, ◌<◌, ◌≡◌, ◌≢◌, refl, ◌==◌, List, [], ◌∷◌, length, some, arith, be_digits, from_be_bytes,
  false, true,
}
use dmludp.Sockets.{Libc, LibcLaws, AllBytes}
use dmludp.Ffi.{SocketAddr, v4, v6, std_addr_from_c, std_addr_to_c}

-- What every `SocketAddr` satisfies: 4 or 16 octets, and ports and numbers of their sizes.
abbrev pub IsAddr : SocketAddr → Type 0
IsAddr (v4 ip port) = (length ip ≡ 4) × AllBytes ip × (port < 2 ^ 16)
IsAddr (v6 ip port flowinfo scope_id) =
    (length ip ≡ 16) × AllBytes ip × (port < 2 ^ 16) × (flowinfo < 2 ^ 32) × (scope_id < 2 ^ 32)

four :
    {a b c d a' b' c' d' : ℕ}
    → (a ≡ a') × (b ≡ b') × (c ≡ c') × (d ≡ d')
    → ◌≡◌ {A = List ℕ} (a ∷ b ∷ c ∷ d ∷ []) (a' ∷ b' ∷ c' ∷ d' ∷ [])
four (p, q, r, s) = cc

-- four bytes, as a number and back
octets : (ip : List ℕ) → length ip ≡ 4 → AllBytes ip → be_digits 4 (from_be_bytes ip) ≡ ip
unfolding be_digits from_be_bytes
octets [] l b = cc
octets (a ∷ []) l h = absurd (omega (arith, l))
octets (a ∷ b ∷ []) l h = absurd (omega (arith, l))
octets (a ∷ b ∷ c ∷ []) l h = absurd (omega (arith, l))
octets (a ∷ b ∷ c ∷ d ∷ []) l (ha, (hb, (hc, (hd, _)))) = four (
  omega (arith, ha, hb, hc, hd),
  omega (arith, ha, hb, hc, hd),
  omega (arith, ha, hb, hc, hd),
  omega (arith, ha, hb, hc, hd),
)
octets (a ∷ b ∷ c ∷ d ∷ e ∷ r) l h = absurd (omega (arith, l))

same : (n : ℕ) → (n == n) ≡ true
same n = ground arith

differ : (m n : ℕ) → m ≢ n → (m == n) ≡ false
differ m n h = ground (arith, h)

module _ (l : Libc) (laws : LibcLaws l) where
  -- An address that was written for C, with the length that was returned, is read back as it was,
  -- for both kinds of address and whatever the memory held before.
  pub std_addr_from_c-std_addr_to_c :
      (addr : SocketAddr) (s : l.Storage)
      → IsAddr addr
      → std_addr_from_c l (std_addr_to_c l addr s).1 (std_addr_to_c l addr s).0 ≡ some addr
  unfolding std_addr_from_c std_addr_to_c
  std_addr_from_c-std_addr_to_c (v4 ip port) s (n, b, p) =
      rw
        (
          laws.family-write_in,
          laws.read_in-write_in,
          laws.from_be32-from_ne_bytes32 ip n b,
          octets ip n b,
          laws.from_be16-to_be16 port p,
          same l.af_inet,
          same l.size_in,
        )
        refl
  std_addr_from_c-std_addr_to_c (v6 ip port flowinfo scope_id) s (n, b, p, _, _) =
      rw
        (
          laws.family-write_in6,
          laws.read_in6-write_in6,
          laws.from_be16-to_be16 port p,
          differ l.af_inet6 l.af_inet laws.families,
          same l.af_inet6,
          same l.size_in6,
        )
        refl
