-- ===== src/Auth.antt =====
-- server/auth.js with server/store/admin_store.js: the admin password, the signed sessions and the
-- row that holds them. A value that may be no string is an optional text; a text's length is its
-- number of code units. scrypt, HMAC and Number are the fields of `Platform`, random bytes are
-- arguments. A function that throws answers `threw`.
pub mod Session
pub mod Password
pub mod Lifecycle
pub mod Revoked
pub mod Change
pub mod Ended
pub mod Kept
pub mod SetUp
pub mod Cookies
mod Examples
use home_net_hub.Prelude.{
  ℕ, zero, suc, ◌+◌, ◌-◌, ◌*◌, ◌/◌, ◌%◌, ◌^◌, ◌≤◌, ◌<◌, min, max, String, ◌≡◌, refl, sym, ap, ◌∙◌,
  subst, ◌≢◌, ◌↔◌, ◌⊎◌, inl, inr, Bool, true, false, not, ◌&&◌, ◌||◌, Option, none, some, List, [],
  ◌∷◌, ◌++◌, map, arith, ltb, leb, nat_beq, if◌then◌else◌, ltb→lt, lt→ltb, leb→le, le→leb,
  not_leb→lt, not_ltb→le, nat_beq_iff, tests, and_true, or_false, Bool-cases, Option-cases, if-elim,
  length, take, drop, any, all, select, get_or, is_some, All, length-append, length-take,
  length-drop, length-select, All-append, Eq, ◌==◌, beq_refl, beq_ne, nat_eq, string_eq, list_eq,
  option_eq, list_beq_iff,
}
use home_net_hub.Text.{Text}
use home_net_hub.JsMap.{JsMap}

-- What the process is given: scrypt (none where it throws), b64u(HMAC-SHA256) and Number (none for
-- what is not finite).
pub record Platform : Type 0 where
  pub hash : Text → Text → Option Text
  pub sign : Text → Text → Text
  pub to_number : Text → Option ℕ

abbrev pub min_password : ℕ
min_password = 8

abbrev pub max_password : ℕ
max_password = 256

abbrev pub session_ttl_ms : ℕ
session_ttl_ms = 12 * 60 * 60 * 1000

pub data PasswordError : Type 0 where
  missing too_short too_long : PasswordError

-- The reason against a password, or none.
unfoldable pub validate_password : Option Text → Option PasswordError
validate_password none = some missing
validate_password (some []) = some missing
validate_password (some (c ∷ s)) =
    if ltb (length (c ∷ s)) min_password
    then some too_short
    else if ltb max_password (length (c ∷ s))
    then some too_long
    else none

-- ── server/store/admin_store.js: at most one row ──

pub record Row : Type 0 where
  pub password_hash : Text
  pub salt : Text
  pub signing_secret : Text

-- INSERT … ON CONFLICT DO NOTHING, with whether it changed a row.
unfoldable pub bootstrap : Option Row → Text → Text → Text → Option Row × Bool
bootstrap (some r) h salt secret = (some r, false)
bootstrap none h salt secret =
    (some (record { password_hash = h; salt = salt; signing_secret = secret }), true)

-- UPDATE … WHERE id = 'admin': the password and the signing secret together.
unfoldable pub set_password : Option Row → Text → Text → Text → Option Row
set_password none h salt secret = none
set_password (some r) h salt secret =
    some (record { password_hash = h; salt = salt; signing_secret = secret })

unfoldable pub clear : Option Row → Option Row × ℕ
clear none = (none, 0)
clear (some r) = (none, 1)

-- ── the gate ──

pub data Source : Type 0 where
  from_db env_bootstrap : Source

pub data Disabled : Type 0 where
  not_configured : Disabled
  env_rejected : PasswordError → Disabled
  not_created : Disabled

-- What createAuth closes over.
pub record Gate : Type 0 where
  pub password_hash : Text
  pub salt : Text
  pub signing_secret : Text
  pub revoked : JsMap (Option Text) ℕ
  pub changing : Bool

pub data Auth : Type 0 where
  disabled : Disabled → Auth
  enabled : Source → Gate → Auth
  threw : Auth

unfoldable pub gate_of : Row → Gate
gate_of r = record {
  password_hash = r.password_hash;
  salt = r.salt;
  signing_secret = r.signing_secret;
  revoked = [];
  changing = false;
}
