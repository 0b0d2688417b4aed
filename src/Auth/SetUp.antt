-- ===== src/Auth/SetUp.antt =====
-- How the one row of the admin comes about: first-run setup and the environment's password
-- (setupAdminPassword and createAuth of server/auth.js).
use home_net_hub.Prelude.{
  ◌≡◌, refl, sym, ap, ◌∙◌, subst, ◌≢◌, inl, inr, true, Option, none, some, [], arith, if◌then◌else◌,
  Option-cases, if-elim, ◌==◌, beq_true, nat_eq, string_eq, list_eq, option_eq,
}
use home_net_hub.Text.{Text}
use home_net_hub.Auth.{
  Platform, Gate, Row, PasswordError, validate_password, bootstrap, Auth, enabled, disabled, threw,
  not_configured, env_rejected, from_db, env_bootstrap, gate_of,
}
use home_net_hub.Auth.Password.{
  matches, create_auth, setup_admin_password, SetUp, set_up, mismatch, already_configured,
  setup_failed, invalid_password, setup_with, opened, boot, boot_with, is_blank,
}
use home_net_hub.Auth.Kept.{IsConsistent}
use home_net_hub.Auth.Ended.{matches_own}

abbrev new_row : Text → Text → Text → Row
new_row h salt secret = record { password_hash = h; salt = salt; signing_secret = secret }

setup_with-set_up :
    (pf : Platform) (row row' : Option Row) (pw salt secret : Text)
    → setup_with pf row pw salt secret ≡ (row', set_up)
    → (row ≡ none)
      × ((h : Text) × (pf.hash pw salt ≡ some h) × (row' ≡ some (new_row h salt secret)))
unfolding setup_with bootstrap
setup_with-set_up pf none row' pw salt secret h = elim (Option-cases (pf.hash pw salt)) [
  | inl e ↦ absurd (ground (arith, e, h))
  | inr (k, e) ↦ (refl, (k, e, ground (arith, e, h)))
]
setup_with-set_up pf (some r) row' pw salt secret h = ground (arith, h)

setup-set_up :
    (pf : Platform) (row row' : Option Row) (pw confirm : Option Text) (salt secret : Text)
    → setup_admin_password pf row pw confirm salt secret ≡ (row', set_up)
    → (p : Text) × (pw ≡ some p)
      × (confirm ≡ pw)
      × (validate_password pw ≡ none)
      × (setup_with pf row p salt secret ≡ (row', set_up))
unfolding setup_admin_password
setup-set_up pf row row' none confirm salt secret h = cc
setup-set_up pf row row' (some p) confirm salt secret h = (
  p,
  refl,
  sym (beq_true (some p) confirm (ground (arith, h))),
  ground (arith, h),
  ground (arith, h),
)

-- First-run setup answers that it set the password only where there was no admin row, both fields
-- agree and the password is acceptable. Then there is a row, from which the server's next start
-- opens the gate with whatever the environment says, and the password chosen is the one that
-- matches.
pub setup_admin_password-set_up :
    (pf : Platform) (row row' : Option Row) (pw confirm env : Option Text)
    (salt secret salt' secret' : Text)
    → setup_admin_password pf row pw confirm salt secret ≡ (row', set_up)
    → (row ≡ none)
      × (confirm ≡ pw)
      × (validate_password pw ≡ none)
      × ((g : Gate) × (create_auth pf row' env salt' secret' ≡ (row', enabled from_db g))
          × (matches pf g pw ≡ true))
unfolding create_auth gate_of
setup_admin_password-set_up pf row row' pw confirm env salt secret salt' secret' h =
    let (p, e, same, ok, rest) = setup-set_up pf row row' pw confirm salt secret h in
    let (empty, (k, hashed, left)) = setup_with-set_up pf row row' p salt secret rest in
    (
      empty,
      same,
      ok,
      (
        gate_of (new_row k salt secret),
        rw (left),
        ap (matches pf (gate_of (new_row k salt secret))) e
            ∙ matches_own pf (gate_of (new_row k salt secret)) p (ap validate_password (sym e) ∙ ok)
                hashed,
      ),
    )

-- The row is kept and the answer is not that a password was set.
abbrev pub IsKept : Row → Option Row × SetUp → Type 0
IsKept r p = (p.0 ≡ some r) × (p.1 ≢ set_up)

setup_with-IsKept :
    (pf : Platform) (r : Row) (p salt secret : Text)
    → IsKept r (setup_with pf (some r) p salt secret)
unfolding setup_with bootstrap
setup_with-IsKept pf r p salt secret =
    elim (pf.hash p salt)
      as (λ o. IsKept r (elim o [
        | none ↦ (some r, setup_failed)
        | some h ↦
            let (row', created) = bootstrap (some r) h salt secret in
            (row', if created then set_up else already_configured)
      ])) [ none ↦ (refl, (λ e. cc e)) | some h ↦ (refl, (λ e. cc e)) ]

-- Where there is an admin row, setup changes nothing and never answers that it set a password.
pub setup_admin_password-once :
    (pf : Platform) (r : Row) (pw confirm : Option Text) (salt secret : Text)
    → IsKept r (setup_admin_password pf (some r) pw confirm salt secret)
unfolding setup_admin_password
setup_admin_password-once pf r none confirm salt secret = (refl, λ e. cc e)
setup_admin_password-once pf r (some p) confirm salt secret =
    elim (validate_password (some p))
      as (λ o. IsKept r (elim o [
        | some e ↦ (some r, invalid_password e)
        | none ↦
            if some p == confirm then setup_with pf (some r) p salt secret else (some r, mismatch)
      ])) [
        | some e ↦ (refl, (λ e. cc e))
        | none ↦
            if-elim (IsKept r) (some p == confirm) (setup_with pf (some r) p salt secret)
              (some r, mismatch) (λ _. setup_with-IsKept pf r p salt secret)
              (λ _. (refl, (λ e. cc e)))
      ]

-- Where the gate comes from: from the row that was there, or from the environment's password where
-- there was none.
abbrev pub IsFounded : Platform → Option Row → Option Text → Option Row × Auth → Type 0
IsFounded pf row env (row', enabled from_db g) =
    (row ≡ row') × IsConsistent (record { row = row'; gate = g }) × (g.revoked ≡ [])
IsFounded pf row env (row', enabled env_bootstrap g) =
    (row ≡ none)
    × IsConsistent (record { row = row'; gate = g })
    × (g.revoked ≡ [])
    × (matches pf g env ≡ true)
IsFounded pf row env (row', a) = row' ≡ row

boot_with-some :
    (pf : Platform) (pw k salt secret : Text)
    → pf.hash pw salt ≡ some k
    → boot_with pf none pw salt secret
      ≡ (some (new_row k salt secret), enabled env_bootstrap (gate_of (new_row k salt secret)))
unfolding boot_with opened bootstrap
boot_with-some pf pw k salt secret e = rw (e, boot_with)

boot_with-none :
    (pf : Platform) (pw salt secret : Text)
    → pf.hash pw salt ≡ none
    → boot_with pf none pw salt secret ≡ (none, threw)
unfolding boot_with
boot_with-none pf pw salt secret e = rw (e, boot_with)

boot_with-IsFounded :
    (pf : Platform) (pw salt secret : Text)
    → validate_password (some pw) ≡ none
    → IsFounded pf none (some pw) (boot_with pf none pw salt secret)
unfolding gate_of
boot_with-IsFounded pf pw salt secret ok = elim (Option-cases (pf.hash pw salt)) [
  | inl e ↦ subst (IsFounded pf none (some pw)) (sym (boot_with-none pf pw salt secret e)) refl
  | inr (k, e) ↦ subst (IsFounded pf none (some pw)) (sym (boot_with-some pf pw k salt secret e)) (
    refl,
    record { stored = refl },
    refl,
    matches_own pf (gate_of (new_row k salt secret)) pw ok e,
  )
]

checked_boot-IsFounded :
    (pf : Platform) (pw salt secret : Text) (o : Option PasswordError)
    → validate_password (some pw) ≡ o
    → IsFounded pf none (some pw) (elim o [
      | some e ↦ (none, disabled (env_rejected e))
      | none ↦ boot_with pf none pw salt secret
    ])
checked_boot-IsFounded pf pw salt secret none e = boot_with-IsFounded pf pw salt secret e
checked_boot-IsFounded pf pw salt secret (some r) e = refl

-- createAuth opens the gate only with an admin row behind it, and the gate is that row's, with
-- nothing revoked. The row that was there decides, whatever the environment says; where there was
-- none, the gate is open only with the environment's password, which matches. A start that does
-- not open the gate leaves the row as it was.
pub create_auth-IsFounded :
    (pf : Platform) (row : Option Row) (env : Option Text) (salt secret : Text)
    → IsFounded pf row env (create_auth pf row env salt secret)
unfolding create_auth gate_of boot
create_auth-IsFounded pf (some r) env salt secret = (refl, record { stored = refl }, refl)
create_auth-IsFounded pf none none salt secret = refl
create_auth-IsFounded pf none (some pw) salt secret =
    if-elim (IsFounded pf none (some pw)) (is_blank pw) (none, disabled not_configured)
      (elim (validate_password (some pw)) [
        | some e ↦ (none, disabled (env_rejected e))
        | none ↦ boot_with pf none pw salt secret
      ])
      (λ _. refl) (λ _. checked_boot-IsFounded pf pw salt secret (validate_password (some pw)) refl)
