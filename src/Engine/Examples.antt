-- ===== src/Engine/Examples.antt =====
-- server/engine.js for a node that went from llama.cpp to Strata, and its theorems there.
use home_net_hub.Prelude.{
  ℕ, ◌+◌, ◌≤◌, ◌≡◌, refl, ◌⊎◌, false, none, some, List, [], ◌∷◌, arith, nat_beq, if◌then◌else◌, All,
  nat_eq, string_eq, list_eq, option_eq, pair_eq,
}
use home_net_hub.Text.{codes}
use home_net_hub.Engine.{
  strata, llamacpp, Answers, Found, Current, Node, LogRow, probe, current_of, probe_port, retry_ms,
  status_failed, is_strata, slots_failed, props_failed, probe_ports, from_status, from_slots,
  from_props,
}
use home_net_hub.Engine.Probes.{FirstOf, IsLogged, other_rows, probe-IsLogged, probe_lem}

abbrev silent : Answers
silent = record { status = status_failed; slots = slots_failed; props = props_failed }

abbrev ask : ℕ → Answers
ask port = if nat_beq port 9878 then record silent { status = is_strata (some 4) } else silent

abbrev before : Current
before = record { engine = llamacpp; port = 8080; mirror = false; slots = some 2; since = 5000 }

abbrev m25 : Node
m25 = record {
  id = codes "m25";
  cur = some before;
  checked = 9000;
  is_error = false;
  next_at = 0;
  poke_at = 0;
}

abbrev log25 : List LogRow
log25 =
    record {
      at = 7;
      node = codes "m136";
      prev = none;
      next = record { engine = strata; port = 9878; mirror = false; slots = none };
    }
    ∷ record {
      at = 5;
      node = codes "m25";
      prev = none;
      next = record { engine = llamacpp; port = 8080; mirror = false; slots = some 2 };
    }
    ∷ []

second_port :
    probe_ports ask (8080 ∷ 9878 ∷ [])
    ≡ some (record { engine = strata; port = 9878; mirror = false; slots = some 4 })
unfolding probe_ports probe_port from_status from_slots from_props
second_port = refl

probe-IsLogged_example :
    let (n', log') = probe ask (8080 ∷ 9878 ∷ []) 180000 12000 (m25, log25) in
    IsLogged n' log' × (other_rows (codes "m25") log' ≡ other_rows (codes "m25") log25)
probe-IsLogged_example =
    probe-IsLogged ask (8080 ∷ 9878 ∷ []) 180000 12000 m25 log25 (refl, refl, omega arith)

probe_lem_example :
    let (n', log') = probe ask (8080 ∷ []) 180000 12000 (m25, log25) in
    ((f : Found) × FirstOf ask (8080 ∷ []) f
      × (n'.cur ≡ some (current_of m25.cur f 12000))
      × (n'.is_error ≡ false))
    ⊎ (All (λ port. probe_port port (ask port) ≡ none) (8080 ∷ []))
      × (n'.cur ≡ m25.cur)
      × (log' ≡ log25)
      × (n'.next_at ≤ 12000 + retry_ms)
probe_lem_example = probe_lem ask (8080 ∷ []) 180000 12000 m25 log25
