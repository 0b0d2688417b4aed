-- ===== src/Auth/Password.antt =====
-- createAuth, matches, changePassword and setupAdminPassword of server/auth.js. changePassword is
-- its two halves, before and after the wait for the key derivations.
use home_net_hub.Prelude.{
  ℕ, Bool, true, false, Option, none, some, [], ◌∷◌, ltb, if◌then◌else◌, length, ◌==◌, nat_eq,
  string_eq, list_eq, option_eq,
}
use home_net_hub.Text.{Text, trim}
use home_net_hub.Auth.{
  Platform, Source, Row, Gate, Auth, disabled, enabled, threw, from_db, env_bootstrap,
  not_configured, env_rejected, not_created, PasswordError, validate_password, max_password,
  bootstrap, set_password, gate_of,
}
use home_net_hub.Auth.Session.{Issued, issue}

unfoldable pub is_blank : Text → Bool
is_blank s = trim s == []

-- On the row that bootstrap left.
unfoldable pub opened : Source → Option Row → Auth
opened s none = disabled not_created
opened s (some r) = enabled s (gate_of r)

unfoldable pub boot_with : Platform → Option Row → Text → Text → Text → Option Row × Auth
boot_with pf row pw salt secret = elim (pf.hash pw salt) [
  | none ↦ (row, threw)
  | some h ↦ let row' = (bootstrap row h salt secret).0 in (row', opened env_bootstrap row')
]

unfoldable pub boot : Platform → Option Row → Option Text → Text → Text → Option Row × Auth
boot pf row none salt secret = (row, disabled not_configured)
boot pf row (some pw) salt secret =
    if is_blank pw then (row, disabled not_configured) else elim (validate_password (some pw)) [
      | some e ↦ (row, disabled (env_rejected e))
      | none ↦ boot_with pf row pw salt secret
    ]

-- The row afterwards, and the gate.
unfoldable pub create_auth : Platform → Option Row → Option Text → Text → Text → Option Row × Auth
unfolding boot boot_with opened is_blank gate_of
create_auth pf (some r) env salt secret = (some r, enabled from_db (gate_of r))
create_auth pf none env salt secret = boot pf none env salt secret

unfoldable pub matches : Platform → Gate → Option Text → Bool
matches pf g none = false
matches pf g (some []) = false
matches pf g (some (c ∷ s)) =
    if ltb max_password (length (c ∷ s))
    then false
    else elim (pf.hash (c ∷ s) g.salt) [ none ↦ false | some h ↦ h == g.password_hash ]

pub data Changed : Type 0 where
  changed : Issued → Changed
  busy invalid_current unchanged : Changed
  invalid_new : PasswordError → Changed
  failed : Changed

pub record World : Type 0 where
  pub row : Option Row
  pub gate : Gate

-- `if (changing) return busy; changing = true`
unfoldable pub begin_change : World → World × Bool
begin_change w =
    if w.gate.changing
    then (w, false)
    else (record w { gate = record w.gate { changing = true } }, true)

-- Random bytes: the new salt, the new secret and the id of the session handed back.
pub record Fresh : Type 0 where
  pub salt : Text
  pub secret : Text
  pub id : Text

unfoldable pub rotate : World → Text → Fresh → World
rotate w h f = record w {
  row = set_password w.row h f.salt f.secret;
  gate = record w.gate {
    password_hash = h;
    salt = f.salt;
    signing_secret = f.secret;
    revoked = [];
  };
}

unfoldable pub change_to : Platform → World → Text → Fresh → ℕ → World × Changed
change_to pf w next f now = elim (pf.hash next f.salt) [
  | none ↦ (w, failed)
  | some h ↦ let w' = rotate w h f in (w', changed (issue pf w'.gate f.id now))
]

unfoldable pub change_checked :
    Platform → World → Option Text → Option Text → Fresh → ℕ → World × Changed
change_checked pf w current none f now = (w, invalid_new PasswordError.missing)
change_checked pf w current (some next) f now = elim (validate_password (some next)) [
  | some e ↦ (w, invalid_new e)
  | none ↦ if some next == current then (w, unchanged) else change_to pf w next f now
]

-- _changePassword
unfoldable pub change_inner :
    Platform → World → Option Text → Option Text → Fresh → ℕ → World × Changed
unfolding change_checked change_to rotate
change_inner pf w current next f now =
    if matches pf w.gate current
    then change_checked pf w current next f now
    else (w, invalid_current)

-- The second half, with `finally { changing = false }`.
unfoldable pub end_change :
    Platform → World → Option Text → Option Text → Fresh → ℕ → World × Changed
end_change pf w current next f now =
    let (w', r) = change_inner pf w current next f now in
    (record w' { gate = record w'.gate { changing = false } }, r)

unfoldable pub change_password :
    Platform → World → Option Text → Option Text → Fresh → ℕ → World × Changed
unfolding begin_change end_change
change_password pf w current next f now =
    let (w', mine) = begin_change w in
    if mine then end_change pf w' current next f now else (w', busy)

pub data SetUp : Type 0 where
  set_up mismatch already_configured setup_failed : SetUp
  invalid_password : PasswordError → SetUp

unfoldable pub setup_with : Platform → Option Row → Text → Text → Text → Option Row × SetUp
setup_with pf row pw salt secret = elim (pf.hash pw salt) [
  | none ↦ (row, setup_failed)
  | some h ↦
      let (row', created) = bootstrap row h salt secret in
      (row', if created then set_up else already_configured)
]

unfoldable pub setup_admin_password :
    Platform → Option Row → Option Text → Option Text → Text → Text → Option Row × SetUp
unfolding setup_with
setup_admin_password pf row none confirm salt secret = (row, invalid_password PasswordError.missing)
setup_admin_password pf row (some pw) confirm salt secret = elim (validate_password (some pw)) [
  | some e ↦ (row, invalid_password e)
  | none ↦ if some pw == confirm then setup_with pf row pw salt secret else (row, mismatch)
]
