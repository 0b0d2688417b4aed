-- ===== src/Server/Push.antt =====
-- server/index.js and server/collectors/push.js: the route by which the machines report. A body is
-- what the route reads of the JSON: its size, its fields, its id and the host in its extra. `handled`
-- are the pushes that were handed to the scheduler, the latest first.
pub mod Accepted
use home_net_hub.Prelude.{
  ℕ, zero, suc, ◌+◌, ◌-◌, ◌*◌, ◌/◌, ◌%◌, ◌^◌, ◌≤◌, ◌<◌, min, max, String, ◌≡◌, refl, sym, ap, ◌∙◌,
  subst, ◌≢◌, ◌↔◌, ◌⊎◌, inl, inr, Bool, true, false, not, ◌&&◌, ◌||◌, Option, none, some, List, [],
  ◌∷◌, ◌++◌, map, arith, ltb, leb, nat_beq, if◌then◌else◌, ltb→lt, lt→ltb, leb→le, le→leb,
  not_leb→lt, not_ltb→le, nat_beq_iff, tests, and_true, or_false, Bool-cases, Option-cases, if-elim,
  if_some, if_none, map_option, map_option-some, length, take, drop, any, all, select, get_or,
  is_some, All, length-append, length-take, length-drop, length-select, All-append, Eq, ◌==◌,
  beq_refl, beq_ne, beq_true, nat_eq, string_eq, list_eq, option_eq, pair_eq, pair_beq_iff,
  list_beq_iff,
}
use home_net_hub.Text.{Text, codes}
use home_net_hub.JsMap.{JsMap, get, set}
use home_net_hub.ClientIp.{Headers, resolve_client_ip}
use home_net_hub.PushBindings.{
  State, Reported, Answer, accepted, bound, unexpected_host, no_host_info, host_of, name_or_empty,
  norm_ip,
}
use home_net_hub.PushBindings

abbrev pub max_payload : ℕ
max_payload = 8192

abbrev pub push_grace_ms : ℕ
push_grace_ms = 10000

abbrev pub push_sweep_ms : ℕ
push_sweep_ms = 5000

-- A target of type http_push: the name of the variable with its token, and its own grace.
pub record PushTarget : Type 0 where
  pub token_env : Option Text
  pub stale_after_s : Option ℕ

pub record Body : Type 0 where
  pub size : ℕ
  pub fields : List Text
  pub id : Option Text
  pub reported : Option Reported

pub record PushRequest : Type 0 where
  pub target_id : Text
  pub token : Option Text
  pub peer : Option Text
  pub headers : Headers
  pub body : Option Body

pub record Hub : Type 0 where
  pub targets : JsMap Text PushTarget
  pub bindings : State
  pub last_push : JsMap Text ℕ
  pub handled : List (Text × Body)

pub data TokenCheck : Type 0 where
  token_ok no_token_env env_not_set bad_token : TokenCheck

-- `!headerToken || headerToken !== expected`, where `expected` is not empty
unfoldable pub compare_token : Option Text → Option Text → TokenCheck
compare_token none token = env_not_set
compare_token (some []) token = env_not_set
compare_token (some (c ∷ s)) none = bad_token
compare_token (some (c ∷ s)) (some t) = if t == (c ∷ s) then token_ok else bad_token

unfoldable pub named_token : JsMap Text Text → Option Text → Option Text → TokenCheck
named_token env none token = no_token_env
named_token env (some []) token = no_token_env
named_token env (some (c ∷ s)) token = compare_token (get env (c ∷ s)) token

unfoldable pub check_push_token : PushTarget → Option Text → JsMap Text Text → TokenCheck
check_push_token target token env = named_token env target.token_env token

abbrev pub required_fields : List Text
required_fields = codes "v" ∷ codes "id" ∷ codes "ts" ∷ codes "os" ∷ codes "gpus" ∷ []

unfoldable pub has_field : List Text → Text → Bool
has_field fields f = any (λ (g : Text). g == f) fields

-- The checks of the body: the status that a bad one is refused with.
unfoldable pub is_well_formed : Text → Body → Bool
is_well_formed target b =
    leb b.size max_payload && all (has_field b.fields) required_fields && b.id == some target

unfoldable pub mark_push : JsMap Text ℕ → Text → ℕ → JsMap Text ℕ
mark_push m target now = set m target now

unfoldable pub handle_push : Hub → Text → Body → ℕ → Hub
handle_push hub target b now = record hub {
  last_push = mark_push hub.last_push target now;
  handled = (target, b) ∷ hub.handled;
}

-- body.extra.host = { hostname }: the machine's id goes no further than the binding.
unfoldable pub without_machine_id : Body → Body
without_machine_id b = record b {
  reported =
      map_option
        (λ (r : Reported). record {
          machine_id = none;
          hostname = some (name_or_empty (host_of (some r)));
        })
        b.reported;
}

-- The answer of the host binding: a refusal leaves nothing but its alert.
unfoldable pub push_decided : Hub → Text → Body → ℕ → State × Answer → Hub × ℕ
push_decided hub target b now (st, accepted) =
    (handle_push (record hub { bindings = st }) target (without_machine_id b) now, 200)
push_decided hub target b now (st, bound) =
    (handle_push (record hub { bindings = st }) target (without_machine_id b) now, 200)
push_decided hub target b now (st, unexpected_host) = (record hub { bindings = st }, 409)
push_decided hub target b now (st, no_host_info) = (record hub { bindings = st }, 409)

unfoldable pub push_body : Hub → List Text → PushRequest → ℕ → Option Body → Hub × ℕ
push_body hub trusted req now none = (hub, 400)
push_body hub trusted req now (some b) =
    if is_well_formed req.target_id b
    then push_decided hub req.target_id b now (
        PushBindings.check hub.bindings req.target_id (host_of b.reported)
          (norm_ip (some (resolve_client_ip req.peer req.headers trusted).ip)) now)
    else (hub, 400)

unfoldable pub push_checked : Hub → List Text → PushRequest → ℕ → TokenCheck → Hub × ℕ
push_checked hub trusted req now token_ok = push_body hub trusted req now req.body
push_checked hub trusted req now no_token_env = (hub, 401)
push_checked hub trusted req now env_not_set = (hub, 401)
push_checked hub trusted req now bad_token = (hub, 401)

unfoldable pub push_known :
    Hub → JsMap Text Text → List Text → PushRequest → ℕ → Option PushTarget → Hub × ℕ
push_known hub env trusted req now none = (hub, 404)
push_known hub env trusted req now (some t) =
    push_checked hub trusted req now (check_push_token t req.token env)

-- POST /api/push/:targetId, and its status
unfoldable pub push : Hub → JsMap Text Text → List Text → PushRequest → ℕ → Hub × ℕ
push hub env trusted req now = push_known hub env trusted req now (get hub.targets req.target_id)

-- isPushStale; a last push at 0 counts as none
unfoldable pub grace_of : PushTarget → ℕ
grace_of t = elim t.stale_after_s [ none ↦ push_grace_ms | some s ↦ s * 1000 ]

unfoldable pub is_push_stale : JsMap Text ℕ → Text → PushTarget → ℕ → Bool
is_push_stale m target t now = elim (get m target) [
  | none ↦ true
  | some at ↦ nat_beq at 0 || ltb (at + grace_of t) now
]

-- One sweep: the targets that it reports offline.
unfoldable pub stale_targets : JsMap Text ℕ → JsMap Text PushTarget → ℕ → List Text
stale_targets m [] now = []
stale_targets m ((id, t) ∷ ts) now =
    let rest = stale_targets m ts now in if is_push_stale m id t now then id ∷ rest else rest
