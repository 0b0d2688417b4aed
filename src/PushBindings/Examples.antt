-- ===== src/PushBindings/Examples.antt =====
-- server/store/push_bindings.js with a machine that reports as another, and its theorems there.
use home_net_hub.Prelude.{
  ◌≡◌, refl, false, none, some, List, [], ◌∷◌, if◌then◌else◌, nat_eq, string_eq, list_eq, option_eq,
  pair_eq,
}
use home_net_hub.Text.{codes, lower}
use home_net_hub.JsMap.{get}
use home_net_hub.PushBindings.{
  Host, Row, State, accepted, is_same, check, refusal, host_of, host_with, norm_ip, is_machine_id,
  or_unknown,
}
use home_net_hub.NetGuard.{strip_prefix}
use home_net_hub.Text.{is_digit}
use home_net_hub.PushBindings.Bound.{after_pushes, Push, check_lasts}

abbrev m25 : Host
m25 = record { machine_id = codes "0123456789abcdef0123456789abcdef"; hostname = codes "m25" }

abbrev m28 : Host
m28 = record { machine_id = codes "fedcba9876543210fedcba9876543210"; hostname = codes "m28" }

mapped_address : norm_ip (some (codes "::FFFF:192.168.1.28")) ≡ codes "192.168.1.28"
unfolding norm_ip strip_prefix or_unknown lower
mapped_address = refl

malformed_host :
    host_of (some (record { machine_id = some (codes "0123"); hostname = none })) ≡ none
unfolding host_of host_with is_machine_id is_digit
malformed_host = refl

abbrev row25 : Row
row25 = record {
  machine_id = m25.machine_id;
  hostname = m25.hostname;
  ip = codes "192.168.1.25";
  bound_at = 1000;
  alert_ip = none;
  alert_host = none;
  alert_mid = none;
  alert_first = none;
  alert_at = none;
  alert_count = 0;
}

abbrev bound25 : State
bound25 = record { rows = (codes "m25", row25) ∷ []; logged = []; lines = [] }

row_of_m25 : get bound25.rows (codes "m25") ≡ some row25
unfolding get
row_of_m25 = refl

foreign : is_same (some m28) row25 ≡ false
unfolding is_same lower
foreign = refl

abbrev three_pushes : List Push
three_pushes =
    record { target = codes "m25"; host = some m25; ip = codes "192.168.1.26"; now = 4000 }
    ∷ record { target = codes "nas"; host = none; ip = codes "192.168.1.9"; now = 3000 }
    ∷ record { target = codes "m25"; host = some m28; ip = codes "192.168.1.28"; now = 2000 }
    ∷ []

check_lasts_example :
    (check
      (after_pushes bound25 three_pushes)
      (codes "m25")
      (some m28)
      (codes "192.168.1.28")
      5000).1
    ≡ (if is_same (some m28) row25 then accepted else refusal (some m28))
check_lasts_example =
    check_lasts bound25 (codes "m25") row25 three_pushes (some m28) (codes "192.168.1.28") 5000
      row_of_m25
