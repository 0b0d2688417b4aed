-- ===== src/ComfyFollow/Examples.antt =====
-- server/comfy_follow.js with a ComfyUI that was started on port 8000, and its theorems there.
use home_net_hub.Prelude.{
  ℕ, ◌≡◌, refl, ◌⊎◌, true, false, Option, some, [], ◌∷◌, nat_eq, string_eq, list_eq, option_eq,
  pair_eq,
}
use home_net_hub.Text.{codes, lower}
use home_net_hub.NetGuard.{strip_prefix}
use home_net_hub.ComfyFollow.{
  Machine, comfy_port, comfy_info, counted, is_loopback_addr, usable_port, includes_port, add_port,
  collect_ports, reachable_ports, lowest, has_port, cmd_port_of, choose_port,
}
use home_net_hub.ComfyFollow.Port.{Reachable, listeners, comfy_port-Reachable}

abbrev desktop : Option Machine
desktop = some (record {
  is_offline = false;
  stale = false;
  comfyui = some (record {
    procs_finite = true;
    listen = some (
        record { port = some 9000; addr = codes "127.0.0.1" }
        ∷ record { port = some 8001; addr = codes "0.0.0.0" }
        ∷ record { port = some 8000; addr = codes "0.0.0.0" }
        ∷ []);
    cmd_port = some 9000;
  });
})

followed : comfy_port desktop (some 8188) ≡ some 8000
unfolding comfy_port comfy_info counted is_loopback_addr usable_port includes_port add_port
    collect_ports reachable_ports lowest has_port cmd_port_of choose_port strip_prefix lower
followed = refl

comfy_port-Reachable_example :
    ◌≡◌ {A = Option ℕ} (some 8188) (some 8000) ⊎ Reachable (listeners desktop) 8000
comfy_port-Reachable_example = comfy_port-Reachable desktop (some 8188) 8000 followed

stays_on_8001 : has_port (reachable_ports (comfy_info desktop)) (some 8001) ≡ true
unfolding comfy_info counted is_loopback_addr usable_port includes_port add_port collect_ports
    reachable_ports has_port strip_prefix lower
stays_on_8001 = refl
