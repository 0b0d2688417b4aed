-- ===== src/Engine.antt =====
-- server/engine.js: which inference engine answers on each node. What the three requests to a port
-- answer is an argument; times are in milliseconds; the log is the table engine_log of all nodes, the
-- latest row first. A number that is no positive one, of slots or concurrency, is none.
pub mod Probes
mod Examples
use home_net_hub.Prelude.{
  ℕ, zero, suc, ◌+◌, ◌-◌, ◌*◌, ◌/◌, ◌%◌, ◌^◌, ◌≤◌, ◌<◌, min, max, String, ◌≡◌, refl, sym, ap, ◌∙◌,
  subst, ◌≢◌, ◌↔◌, ◌⊎◌, inl, inr, Bool, true, false, not, ◌&&◌, ◌||◌, Option, none, some, List, [],
  ◌∷◌, ◌++◌, map, arith, ltb, leb, nat_beq, if◌then◌else◌, ltb→lt, lt→ltb, leb→le, le→leb,
  not_leb→lt, not_ltb→le, nat_beq_iff, tests, and_true, or_false, Bool-cases, Option-cases, if-elim,
  if_some, if_none, map_option, map_option-some, length, take, drop, any, all, select, get_or,
  is_some, All, length-append, length-take, length-drop, length-select, All-append, All-map,
  All-intro, Eq, ◌==◌, beq_refl, beq_ne, beq_true, nat_eq, string_eq, list_eq, option_eq, pair_eq,
  pair_beq_iff, list_beq_iff,
}
use home_net_hub.Text.{Text}
use home_net_hub.JsMap.{JsMap, get, set}

abbrev pub probe_every_ms : ℕ
probe_every_ms = 180000

abbrev pub poke_min_ms : ℕ
poke_min_ms = 30000

abbrev pub retry_ms : ℕ
retry_ms = 60000

pub data Kind : Type 0 where
  strata llamacpp : Kind

abbrev pub same_kind : Kind → Kind → Bool
same_kind strata strata = true
same_kind llamacpp llamacpp = true
same_kind _ _ = false

-- GET /v1/status: no answer, an object with concurrency or activity, or anything else.
pub data Status : Type 0 where
  status_failed not_strata : Status
  is_strata : Option ℕ → Status

-- GET /slots: no answer, a list of so many with the header of the mirror, or anything else.
pub data Slots : Type 0 where
  slots_failed not_list : Slots
  slot_list : ℕ → Bool → Slots

-- GET /props
pub data Props : Type 0 where
  props_failed not_llamacpp : Props
  is_llamacpp : Option ℕ → Bool → Props

pub record Answers : Type 0 where
  pub status : Status
  pub slots : Slots
  pub props : Props

pub record Found : Type 0 where
  pub engine : Kind
  pub port : ℕ
  pub mirror : Bool
  pub slots : Option ℕ

-- n || null
unfoldable pub or_null : ℕ → Option ℕ
or_null zero = none
or_null (suc n) = some (suc n)

unfoldable pub from_props : ℕ → Props → Option Found
from_props port (is_llamacpp n mirror) =
    some (record { engine = llamacpp; port = port; mirror = mirror; slots = n })
from_props port _ = none

unfoldable pub from_slots : ℕ → Slots → Props → Option Found
from_slots port (slot_list n mirror) props =
    some (record { engine = llamacpp; port = port; mirror = mirror; slots = or_null n })
from_slots port _ props = from_props port props

unfoldable pub from_status : ℕ → Status → Slots → Props → Option Found
from_status port (is_strata n) slots props =
    some (record { engine = strata; port = port; mirror = false; slots = n })
from_status port _ slots props = from_slots port slots props

unfoldable pub probe_port : ℕ → Answers → Option Found
probe_port port a = from_status port a.status a.slots a.props

-- The loop over the candidate ports, up to the first that answers; configure leaves out a node with no
-- candidate.
unfoldable pub probe_ports : (ℕ → Answers) → List ℕ → Option Found
probe_ports ask [] = none
probe_ports ask (port ∷ ports) = elim (probe_port port (ask port)) [
  | none ↦ probe_ports ask ports
  | some f ↦ some f
]

pub record Current : Type 0 where
  pub engine : Kind
  pub port : ℕ
  pub mirror : Bool
  pub slots : Option ℕ
  pub since : ℕ

-- `id` is def.id.
pub record Node : Type 0 where
  pub id : Text
  pub cur : Option Current
  pub checked : ℕ
  pub is_error : Bool
  pub next_at : ℕ
  pub poke_at : ℕ

pub record LogRow : Type 0 where
  pub at : ℕ
  pub node : Text
  pub prev : Option Current
  pub next : Found

unfoldable pub is_changed : Option Current → Found → Bool
is_changed none f = true
is_changed (some c) f = if same_kind c.engine f.engine && nat_beq c.port f.port then false else true

unfoldable pub since_of : Option Current → Found → ℕ → ℕ
since_of none f now = now
since_of (some c) f now = if is_changed (some c) f then now else c.since

unfoldable pub current_of : Option Current → Found → ℕ → Current
current_of prev f now = record {
  engine = f.engine;
  port = f.port;
  mirror = f.mirror;
  slots = f.slots;
  since = since_of prev f now;
}

-- After the requests of _probe.
unfoldable pub probed : Node → Option Found → ℕ → Node
probed n none now = record n { checked = now; is_error = true }
probed n (some f) now = record n {
  cur = some (current_of n.cur f now);
  checked = now;
  is_error = false;
}

unfoldable pub log_rows : Node → Option Found → ℕ → List LogRow → List LogRow
log_rows n none now log = log
log_rows n (some f) now log =
    if is_changed n.cur f
    then record { at = now / 1000; node = n.id; prev = n.cur; next = f } ∷ log
    else log

-- probe's finally: when to look again.
unfoldable pub schedule : Node → ℕ → ℕ → Node
schedule n every now = record n {
  next_at = now + (if n.is_error then min retry_ms every else every);
}

unfoldable pub probe : (ℕ → Answers) → List ℕ → ℕ → ℕ → Node × List LogRow → Node × List LogRow
probe ask ports every now (n, log) =
    let found = probe_ports ask ports in
    (schedule (probed n found now) every now, log_rows n found now log)

-- The live reader lost the node, while it is not being probed.
unfoldable pub poke : Node → ℕ → Node
poke n now =
    if ltb now (n.poke_at + poke_min_ms) then n else record n { poke_at = now; next_at = 0 }
