-- ===== src/ComfyFollow.antt =====
-- server/comfy_follow.js: the port on which a ComfyUI server is to be probed. A value that Number
-- makes no natural number of is none, and an address that is missing is the empty text.
pub mod Port
mod Examples
use home_net_hub.Prelude.{
  ℕ, zero, suc, ◌+◌, ◌-◌, ◌*◌, ◌/◌, ◌%◌, ◌^◌, ◌≤◌, ◌<◌, min, max, String, ◌≡◌, refl, sym, ap, ◌∙◌,
  subst, ◌≢◌, ◌↔◌, ◌⊎◌, inl, inr, Bool, true, false, not, ◌&&◌, ◌||◌, Option, none, some, List, [],
  ◌∷◌, ◌++◌, map, arith, ltb, leb, nat_beq, if◌then◌else◌, ltb→lt, lt→ltb, leb→le, le→leb,
  not_leb→lt, not_ltb→le, nat_beq_iff, tests, and_true, or_false, Bool-cases, Option-cases, if-elim,
  if_some, if_none, map_option, map_option-some, length, take, drop, any, all, select, get_or,
  is_some, All, length-append, length-take, length-drop, length-select, All-append, All-map,
  All-intro, Eq, ◌==◌, beq_refl, beq_ne, beq_true, nat_eq, string_eq, list_eq, option_eq, pair_eq,
  pair_beq_iff, list_beq_iff,
}
use home_net_hub.Text.{Text, codes}
use home_net_hub.NetGuard.{strip_prefix}

pub record Listener : Type 0 where
  pub port : Option ℕ
  pub addr : Text

-- extra.comfyui; `procs_finite` is Number.isFinite(Number(c.procs)), and `listen` is
-- none where it is no array.
pub record Info : Type 0 where
  pub procs_finite : Bool
  pub listen : Option (List Listener)
  pub cmd_port : Option ℕ

pub record Machine : Type 0 where
  pub is_offline : Bool
  pub stale : Bool
  pub comfyui : Option Info

unfoldable pub counted : Option Info → Option Info
counted none = none
counted (some c) = if c.procs_finite then some c else none

unfoldable pub comfy_info : Option Machine → Option Info
comfy_info none = none
comfy_info (some m) = if m.is_offline || m.stale then none else counted m.comfyui

-- /^(127\.|::1$|::ffff:127\.)/i
unfoldable pub is_loopback_addr : Text → Bool
is_loopback_addr a =
    is_some (strip_prefix (codes "127.") a)
    || a == codes "::1"
    || is_some (strip_prefix (codes "::ffff:127.") a)

unfoldable pub usable_port : Listener → Option ℕ
usable_port l = elim l.port [
  | none ↦ none
  | some p ↦ if ltb p 1 || ltb 65535 p || is_loopback_addr l.addr then none else some p
]

-- ports.includes(p)
unfoldable pub includes_port : List ℕ → ℕ → Bool
includes_port ports p = any (nat_beq p) ports

unfoldable pub add_port : List ℕ → Option ℕ → List ℕ
add_port out none = out
add_port out (some p) = if includes_port out p then out else out ++ (p ∷ [])

unfoldable pub collect_ports : List ℕ → List Listener → List ℕ
collect_ports out [] = out
collect_ports out (l ∷ ls) = collect_ports (add_port out (usable_port l)) ls

unfoldable pub reachable_ports : Option Info → List ℕ
reachable_ports none = []
reachable_ports (some c) = elim c.listen [ none ↦ [] | some ls ↦ collect_ports [] ls ]

-- Math.min(...ports)
unfoldable pub lowest : ℕ → List ℕ → ℕ
lowest p [] = p
lowest p (q ∷ qs) = min p (lowest q qs)

unfoldable pub has_port : List ℕ → Option ℕ → Bool
has_port ports none = false
has_port ports (some p) = includes_port ports p

unfoldable pub cmd_port_of : Option Info → Option ℕ
cmd_port_of none = none
cmd_port_of (some c) = c.cmd_port

unfoldable pub choose_port : List ℕ → Option ℕ → Option ℕ → Option ℕ
choose_port [] cmd configured = configured
choose_port (p ∷ ps) cmd configured =
    if has_port (p ∷ ps) configured
    then configured
    else if has_port (p ∷ ps) cmd
    then cmd
    else some (lowest p ps)

-- The configured port is null where portOf found none.
unfoldable pub comfy_port : Option Machine → Option ℕ → Option ℕ
comfy_port m configured =
    choose_port (reachable_ports (comfy_info m)) (cmd_port_of (comfy_info m)) configured
