-- ===== src/Config.antt =====
-- `Config` of src/lib.rs, and `CongestionControlAlgorithm` of src/recovery/mod.rs.
mod Tests
use dmludp.Prelude.{
  ℕ, ◌≡◌, ◌↔◌, Bool, true, false, if◌then◌else◌, Bool-cases, inl, inr, refl, arith, ◌≢◌,
}
use Prim.Native.String.{String}
use text.Mathlib.Text.{◌==◌}
use text.Mathlib.TextEquality.{eq_iff}
use dmludp.Error.{Result, ok, err, congestion_control}

pub data CongestionControlAlgorithm : Type 0 where
  newcubic : CongestionControlAlgorithm

pub record Config : Type 0 where
  pub cc_algorithm : CongestionControlAlgorithm
  pub max_send_udp_payload_size : ℕ
  pub max_idle_timeout : ℕ

abbrev pub max_send_udp_payload : ℕ
max_send_udp_payload = 1350

-- `Config::new`
unfoldable pub new : Result Config
new = ok (record {
  cc_algorithm = newcubic;
  max_send_udp_payload_size = max_send_udp_payload;
  max_idle_timeout = 5000;
})

unfoldable pub set_max_idle_timeout : Config → ℕ → Config
set_max_idle_timeout c v = record c { max_idle_timeout = v }

-- `CongestionControlAlgorithm::from_str`
unfoldable pub from_str : String → Result CongestionControlAlgorithm
from_str name = if name == "newcubic" then ok newcubic else err congestion_control

unfoldable pub set_cc_algorithm : Config → CongestionControlAlgorithm → Config
set_cc_algorithm c algo = record c { cc_algorithm = algo }

-- The assignment is made only behind the `?`.
unfoldable pub set_cc_algorithm_name : Config → String → Result (Unit {0}) × Config
unfolding from_str
set_cc_algorithm_name c name = elim (from_str name) [
  | ok algo ↦ (ok tt, record c { cc_algorithm = algo })
  | err e ↦ (err e, c)
]

accepted :
    (c : Config) (name : String)
    → (name == "newcubic") ≡ true
    → set_cc_algorithm_name c name ≡ (ok tt, record c { cc_algorithm = newcubic })
unfolding set_cc_algorithm_name
accepted c name e = rw (e, set_cc_algorithm_name)

refused :
    (c : Config) (name : String)
    → (name == "newcubic") ≡ false
    → set_cc_algorithm_name c name ≡ (err congestion_control, c)
unfolding set_cc_algorithm_name
refused c name e = rw (e, set_cc_algorithm_name)

-- `set_cc_algorithm_name` accepts the name "newcubic", in this spelling, and no other; on any other
-- name it fails with `CongestionControl` and leaves the configuration alone. The other settings
-- are the same in each case.
pub set_cc_algorithm_name_lem :
    (c : Config) (name : String)
    → (((set_cc_algorithm_name c name).0 ≡ ok tt) ↔ (name ≡ "newcubic"))
      × (name ≢ "newcubic" → set_cc_algorithm_name c name ≡ (err congestion_control, c))
      × ((set_cc_algorithm_name c name).1.max_send_udp_payload_size ≡ c.max_send_udp_payload_size)
      × ((set_cc_algorithm_name c name).1.max_idle_timeout ≡ c.max_idle_timeout)
set_cc_algorithm_name_lem c name = elim (Bool-cases (name == "newcubic")) [
  | inl same ↦
      let e : name ≡ "newcubic" = (eq_iff name "newcubic").0 same in
      rw (accepted c name same) ((λ _. e, λ _. refl), λ ne. absurd (ne e), refl, refl)
  | inr other ↦
      rw (refused c name other)
        ((λ e. cc, λ e. cc (other, (eq_iff name "newcubic").1 e)), λ ne. refl, refl, refl)
]
