-- ===== src/Config/Tests.antt =====
-- `set_cc_algorithm_name` with the spelling of the documentation.
use dmludp.Prelude.{◌≡◌, ◌≢◌, ◌↔◌}
use Prim.Native.String.{String}
use dmludp.Error.{ok, err, congestion_control}
use dmludp.Config.{Config, newcubic, set_cc_algorithm_name, set_cc_algorithm_name_lem}

abbrev config : Config
config = record {
  cc_algorithm = newcubic;
  max_send_udp_payload_size = 1200;
  max_idle_timeout = 5000;
}

-- the name as the documentation spells it
abbrev documented : String
documented = "NEWCUBIC"

set_cc_algorithm_name_lem_example :
    (((set_cc_algorithm_name config documented).0 ≡ ok tt) ↔ (documented ≡ "newcubic"))
    × (documented ≢ "newcubic"
        → set_cc_algorithm_name config documented ≡ (err congestion_control, config))
    × ((set_cc_algorithm_name config documented).1.max_send_udp_payload_size ≡ 1200)
    × ((set_cc_algorithm_name config documented).1.max_idle_timeout ≡ 5000)
set_cc_algorithm_name_lem_example = set_cc_algorithm_name_lem config documented
