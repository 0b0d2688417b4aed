-- ===== src/CredStore.antt =====
-- server/store/cred_store.js: the credentials, of which the table has the ciphertext alone, and the
-- host keys that are trusted on first use. A row's random id is an argument; an answer none is an
-- exception.
pub mod HostKeys
pub mod Secrets
mod Examples
use home_net_hub.Prelude.{
  ℕ, zero, suc, ◌+◌, ◌-◌, ◌*◌, ◌/◌, ◌%◌, ◌^◌, ◌≤◌, ◌<◌, min, max, String, ◌≡◌, refl, sym, ap, ◌∙◌,
  subst, ◌≢◌, ◌↔◌, ◌⊎◌, inl, inr, Bool, true, false, not, ◌&&◌, ◌||◌, Option, none, some, List, [],
  ◌∷◌, ◌++◌, map, arith, ltb, leb, nat_beq, if◌then◌else◌, ltb→lt, lt→ltb, leb→le, le→leb,
  not_leb→lt, not_ltb→le, nat_beq_iff, tests, and_true, or_false, Bool-cases, Option-cases, if-elim,
  if_some, if_none, map_option, map_option-some, length, take, drop, any, all, select, get_or,
  is_some, All, length-append, length-take, length-drop, length-select, All-append, Eq, ◌==◌,
  beq_refl, beq_ne, beq_true, nat_eq, string_eq, list_eq, option_eq, pair_eq, pair_beq_iff,
  list_beq_iff,
}
use home_net_hub.Text.{Text, codes, trim, is_digit, lower}
use home_net_hub.JsMap.{JsMap, get, set, delete, has}
use home_net_hub.Vault.{Meta}

abbrev pub max_secret : ℕ
max_secret = 16 * 1024

abbrev pub cred_types : List Text
cred_types = codes "ssh_password" ∷ codes "ssh_key" ∷ codes "winrm_password" ∷ []

pub record Credential : Type 0 where
  pub name : Text
  pub type_name : Text
  pub username : Text
  pub secret_enc : Text
  pub created_at : ℕ

pub record KnownHost : Type 0 where
  pub fingerprint : Text
  pub first_seen : ℕ
  pub last_seen : ℕ

pub record CredStore : Type 0 where
  pub credentials : JsMap Text Credential
  pub known_hosts : JsMap Text KnownHost
  pub vault_meta : Option Meta

-- ON CONFLICT(id) DO NOTHING
unfoldable pub set_meta : CredStore → Meta → CredStore
set_meta db m = elim db.vault_meta [ none ↦ record db { vault_meta = some m } | some old ↦ db ]

-- What a listing has of a credential: no secret.
pub record Listed : Type 0 where
  pub id : Text
  pub name : Text
  pub type_name : Text
  pub username : Text
  pub created_at : ℕ

unfoldable pub listed : Text → Credential → Listed
listed id c = record {
  id = id;
  name = c.name;
  type_name = c.type_name;
  username = c.username;
  created_at = c.created_at;
}

unfoldable pub get_credential : CredStore → Text → Option Listed
get_credential db id = map_option (listed id) (get db.credentials id)

-- The lists, in the order of the table
unfoldable pub list_credentials : CredStore → List Listed
list_credentials db = map (λ (e : Text × Credential). listed e.0 e.1) db.credentials

unfoldable pub secret_of : CredStore → Text → Option Text
secret_of db id = elim (get db.credentials id) [
  | none ↦ none
  | some c ↦ if c.secret_enc == [] then none else some c.secret_enc
]

-- The unique index on name, and the primary key.
unfoldable pub is_taken : CredStore → Text → Text → Bool
is_taken db id name =
    has db.credentials id || any (λ (e : Text × Credential). e.1.name == name) db.credentials

unfoldable pub insert :
    CredStore → Text → Text → Text → Text → Text → ℕ → Option (CredStore × Option Listed)
insert db id name type_name username secret_enc now =
    if is_taken db id name
    then none
    else (let c : Credential = record {
      name = name;
      type_name = type_name;
      username = username;
      secret_enc = secret_enc;
      created_at = now;
    } in
        let db' : CredStore = record db { credentials = set db.credentials id c } in
        some (db', get_credential db' id))

unfoldable pub remove : CredStore → Text → CredStore × ℕ
remove db id =
    (record db { credentials = delete db.credentials id }, if has db.credentials id then 1 else 0)

unfoldable pub count : CredStore → ℕ
count db = length db.credentials

pub data HostKey : Type 0 where
  new_key key_match key_mismatch : HostKey

unfoldable pub first_sight : CredStore → Text → Text → ℕ → CredStore
first_sight db hostport fingerprint now = record db {
  known_hosts =
      set db.known_hosts hostport
        (record { fingerprint = fingerprint; first_seen = now; last_seen = now });
}

unfoldable pub seen_again : CredStore → Text → Text → ℕ → KnownHost → CredStore × HostKey
seen_again db hostport fingerprint now h =
    if h.fingerprint == fingerprint
    then (
      record db { known_hosts = set db.known_hosts hostport (record h { last_seen = now }) },
      key_match,
    )
    else (db, key_mismatch)

unfoldable pub check_known : CredStore → Text → Text → ℕ → Option KnownHost → CredStore × HostKey
check_known db hostport fingerprint now none = (first_sight db hostport fingerprint now, new_key)
check_known db hostport fingerprint now (some h) = seen_again db hostport fingerprint now h

unfoldable pub check_host_key : CredStore → Text → Text → ℕ → CredStore × HostKey
check_host_key db hostport fingerprint now =
    check_known db hostport fingerprint now (get db.known_hosts hostport)

unfoldable pub forget_host_key : CredStore → Text → CredStore × ℕ
forget_host_key db hostport = (
  record db { known_hosts = delete db.known_hosts hostport },
  if has db.known_hosts hostport then 1 else 0,
)

-- [\w .:@-]
is_name_char : ℕ → Bool
is_name_char c =
    is_digit c
    || leb b'a' (lower c) && leb (lower c) b'z'
    || nat_beq c b'_'
    || nat_beq c b' '
    || nat_beq c b'.'
    || nat_beq c b':'
    || nat_beq c b'@'
    || nat_beq c b'-'

unfoldable pub is_cred_name : Text → Bool
unfolding is_name_char
is_cred_name s = leb 1 (length s) && leb (length s) 60 && all is_name_char s

pub data CredError : Type 0 where
  bad_name bad_type bad_username no_secret secret_too_long : CredError

pub data Validation : Type 0 where
  invalid : CredError → Validation
  clean : Text → Text → Text → Text → Validation

-- The fields of the body as texts, and the secret, none where it is no string; what is clean is the
-- trimmed fields and the secret as it is.
unfoldable pub validate_secret : Text → Text → Text → Option Text → Validation
validate_secret name type_name username none = invalid no_secret
validate_secret name type_name username (some []) = invalid no_secret
validate_secret name type_name username (some (c ∷ s)) =
    if ltb max_secret (length (c ∷ s))
    then invalid secret_too_long
    else clean name type_name username (c ∷ s)

unfoldable pub validate_trimmed : Text → Text → Text → Option Text → Validation
validate_trimmed name type_name username secret =
    if not (is_cred_name name)
    then invalid bad_name
    else if not (any (λ (t : Text). t == type_name) cred_types)
    then invalid bad_type
    else if username == [] || ltb 60 (length username)
    then invalid bad_username
    else validate_secret name type_name username secret

unfoldable pub validate_credential : Text → Text → Text → Option Text → Validation
validate_credential name type_name username secret =
    validate_trimmed (trim name) (trim type_name) (trim username) secret
