-- ===== src/Server.antt =====
-- server/index.js: what its admin routes share. A request is what the handlers read of it; a reply is
-- its status, the headers that they set and when the session ends. A handler that throws answers 500.
-- `url_host` and `decode` are URL and decodeURIComponent. Each handler is one step: nothing runs
-- while it awaits a key derivation.
pub mod Login
pub mod Sessions
pub mod FirstRun
pub mod Push
mod Examples
use home_net_hub.Prelude.{
  ℕ, zero, suc, ◌+◌, ◌-◌, ◌*◌, ◌/◌, ◌%◌, ◌^◌, ◌≤◌, ◌<◌, min, max, String, ◌≡◌, refl, sym, ap, ◌∙◌,
  subst, ◌≢◌, ◌↔◌, ◌⊎◌, inl, inr, Bool, true, false, not, ◌&&◌, ◌||◌, Option, none, some, List, [],
  ◌∷◌, ◌++◌, map, arith, ltb, leb, nat_beq, if◌then◌else◌, ltb→lt, lt→ltb, leb→le, le→leb,
  not_leb→lt, not_ltb→le, nat_beq_iff, tests, and_true, or_false, Bool-cases, Option-cases, if-elim,
  if_some, map_option, map_option-some, length, take, drop, any, all, select, get_or, is_some, All,
  length-append, length-take, length-drop, length-select, All-append, Eq, ◌==◌, beq_refl, beq_ne,
  beq_true, nat_eq, string_eq, list_eq, option_eq, pair_eq, pair_beq_iff, list_beq_iff,
}
use home_net_hub.Text.{Text, codes}
use home_net_hub.JsMap.{JsMap, get}
use home_net_hub.NetGuard.{Checked, allowed, refused}
use home_net_hub.ClientIp.{Headers, resolve_client_ip, client_is_private, direct_lan_hit}
use home_net_hub.Limiter
use home_net_hub.Auth.{Platform, Row, Gate, Auth, enabled, disabled, threw}
use home_net_hub.Auth.Session.{Verdict, valid, denied, verify, Issued}
use home_net_hub.Auth.Cookies.{
  cookie_name, parse_cookies, Origin, same_origin, malformed_origin, cross_origin, check_origin,
  serialize_cookie,
}

pub record Request : Type 0 where
  pub origin : Option Text
  pub hostname : Option Text
  pub raw_host : Option Text
  pub https : Bool
  pub peer : Option Text
  pub headers : Headers
  pub cookie : Option Text

pub record Reply : Type 0 where
  pub status : ℕ
  pub retry_after : Option ℕ
  pub set_cookie : Option Text
  pub expires_at : Option ℕ

-- The settings of the process, and the functions of the runtime that the handlers call.
pub record Env : Type 0 where
  pub platform : Platform
  pub url_host : Text → Option Text
  pub decode : Text → Option Text
  pub trusted : List Text
  pub admin_password : Option Text
  pub require_login_to_view : Bool
  pub view_lan_open : Bool

pub record Site : Type 0 where
  pub row : Option Row
  pub auth : Auth
  pub login_limiter : Limiter.Buckets
  pub setup_limiter : Limiter.Buckets
  pub setup_in_flight : Bool

abbrev pub plain : ℕ → Reply
plain status = record { status = status; retry_after = none; set_cookie = none; expires_at = none }

-- 429 with Retry-After
abbrev pub too_many : ℕ → Reply
too_many s = record { status = 429; retry_after = some s; set_cookie = none; expires_at = none }

unfoldable pub gate_of_auth : Auth → Option Gate
gate_of_auth (enabled s g) = some g
gate_of_auth (disabled r) = none
gate_of_auth threw = none

unfoldable pub or_word : Option Text → Text
or_word none = codes "unknown"
or_word (some []) = codes "unknown"
or_word (some (c ∷ s)) = c ∷ s

-- clientIpOf(req) || 'unknown' and req.socket?.remoteAddress || 'unknown'
unfoldable pub client_key_of : Env → Request → Text
client_key_of env req = or_word (some (resolve_client_ip req.peer req.headers env.trusted).ip)

unfoldable pub peer_key_of : Request → Text
peer_key_of req = or_word req.peer

-- The token of the request; none where parseCookies throws.
unfoldable pub token_of : Env → Request → Option (Option Text)
token_of env req = map_option (λ m. get m cookie_name) (parse_cookies env.decode req.cookie)

unfoldable pub session_of : Env → Gate → Request → ℕ → Option Verdict
session_of env g req now = map_option (λ t. verify env.platform g t now) (token_of env req)

-- A guard lets a request through, or replies.
unfoldable pub admit : Option Verdict → Option Reply
admit none = some (plain 500)
admit (some (denied r)) = some (plain 401)
admit (some (valid exp id)) = none

unfoldable pub require_admin : Env → Site → Request → ℕ → Option Reply
require_admin env site req now = elim (gate_of_auth site.auth) [
  | none ↦ some (plain 401)
  | some g ↦ admit (session_of env g req now)
]

unfoldable pub origin_of : Env → Request → Origin
origin_of env req = check_origin env.url_host req.origin req.hostname req.raw_host

unfoldable pub is_same_origin : Origin → Bool
is_same_origin same_origin = true
is_same_origin malformed_origin = false
is_same_origin cross_origin = false

unfoldable pub require_same_origin : Env → Request → Option Reply
require_same_origin env req = if is_same_origin (origin_of env req) then none else some (plain 403)

-- ADMIN_WRITE
unfoldable pub require_write : Env → Site → Request → ℕ → Option Reply
require_write env site req now = elim (require_admin env site req now) [
  | some reply ↦ some reply
  | none ↦ require_same_origin env req
]

unfoldable pub require_view : Env → Site → Request → ℕ → Option Reply
require_view env site req now =
    if not env.require_login_to_view
    then none
    else if env.view_lan_open && direct_lan_hit req.peer req.headers
    then none
    else require_admin env site req now

-- clientIsPrivate
unfoldable pub private_client : Env → Request → Checked
private_client env req = client_is_private req.peer req.headers env.trusted

unfoldable pub is_allowed : Checked → Bool
is_allowed (allowed ip) = true
is_allowed (refused r) = false

unfoldable pub setup_available : Env → Site → Request → Bool
setup_available env site req =
    not (is_some (gate_of_auth site.auth)) && is_allowed (private_client env req)

-- A reply with a session: its cookie, and when it ends.
unfoldable pub with_session : Request → Issued → Reply
with_session req s = record {
  status = 200;
  retry_after = none;
  set_cookie = some (serialize_cookie s.value req.https s.max_age_s);
  expires_at = some s.expires_at;
}

-- GET /api/session: authenticated (none where it throws), configured, setup_available
unfoldable pub session_state : Env → Site → Request → ℕ → Option Bool × Bool × Bool
session_state env site req now = (
  elim (gate_of_auth site.auth) [
    | none ↦ some false
    | some g ↦ map_option (λ v. not (is_some (admit (some v)))) (session_of env g req now)
  ],
  is_some (gate_of_auth site.auth),
  setup_available env site req,
)
