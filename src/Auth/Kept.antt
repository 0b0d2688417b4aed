-- ===== src/Auth/Kept.antt =====
-- What a change of the password (changePassword of server/auth.js) keeps: the gate in memory and the
-- row in the database agree, and a refusal changes neither.
use home_net_hub.Prelude.{
  ℕ, ◌≡◌, refl, sym, ap, ◌∙◌, subst, ◌⊎◌, inl, inr, true, false, Option, none, some, if◌then◌else◌,
  Bool-cases, if-elim, ◌==◌, nat_eq, string_eq, list_eq, option_eq,
}
use home_net_hub.Text.{Text}
use home_net_hub.Auth.{Platform, set_password, PasswordError, validate_password}
use home_net_hub.Auth.Session.{Issued, issue}
use home_net_hub.Auth.Password.{
  World, Fresh, Changed, changed, invalid_current, unchanged, invalid_new, failed, change_password,
  matches, change_inner, change_checked, change_to, end_change, rotate,
}
use home_net_hub.Auth.Change.{change_password-busy, change_password-idle}

-- The gate in memory is that of the row in the database.
pub record IsConsistent (w : World) : Type 0 where
  pub stored :
      w.row
      ≡ some (record {
        password_hash = w.gate.password_hash;
        salt = w.gate.salt;
        signing_secret = w.gate.signing_secret;
      })

forget_changing :
    (w : World)
    → w.gate.changing ≡ false
    → ◌≡◌ {A = World} (record w { gate = record w.gate { changing = false } }) w
forget_changing w e =
    ap {B = World} (λ b. record w { gate = record w.gate { changing = b } }) (sym e)

-- To show something of every outcome of a change: of each refusal, which leaves the world alone,
-- and of the one success.
module _ (pf : Platform) (f : Fresh) (now : ℕ) (w : World) (P : World × Changed → Type 0)
    (refused : (r : Changed) → P (w, r))
    (done : (k : Text) (s : Issued) → P (rotate w k f, changed s)) where
  change_to-cases : (next : Text) → P (change_to pf w next f now)
  unfolding change_to
  change_to-cases next =
      elim (pf.hash next f.salt)
        as (λ o. P (elim o [
          | none ↦ (w, failed)
          | some h ↦ let w' = rotate w h f in (w', changed (issue pf w'.gate f.id now))
        ])) [ none ↦ refused failed | some h ↦ done h (issue pf (rotate w h f).gate f.id now) ]

  change_checked-cases : (current next : Option Text) → P (change_checked pf w current next f now)
  unfolding change_checked
  change_checked-cases current none = refused (invalid_new PasswordError.missing)
  change_checked-cases current (some next) =
      elim (validate_password (some next))
        as (λ o. P (elim o [
          | some e ↦ (w, invalid_new e)
          | none ↦ if some next == current then (w, unchanged) else change_to pf w next f now
        ])) [
          | some e ↦ refused (invalid_new e)
          | none ↦
              if-elim P (some next == current) (w, unchanged) (change_to pf w next f now)
                (λ _. refused unchanged) (λ _. change_to-cases next)
        ]

  change_inner-cases : (current next : Option Text) → P (change_inner pf w current next f now)
  unfolding change_inner
  change_inner-cases current next =
      if-elim P (matches pf w.gate current) (change_checked pf w current next f now)
        (w, invalid_current) (λ _. change_checked-cases current next) (λ _. refused invalid_current)

module _ (pf : Platform) (f : Fresh) (now : ℕ) where
  end_change-kept :
      (w : World) (current next : Option Text)
      → w.gate.changing ≡ true
      → let (w', r) = end_change pf w current next f now in
        ((s : Issued) × (r ≡ changed s))
        ⊎ (w' ≡ record w { gate = record w.gate { changing = false } })
  unfolding end_change
  end_change-kept w current next e =
      change_inner-cases pf f now w
        (λ p.
          ((s : Issued) × (p.1 ≡ changed s))
          ⊎ ((record p.0 { gate = record p.0.gate { changing = false } })
              ≡ record w { gate = record w.gate { changing = false } }))
        (λ r. inr refl) (λ k s. inl (s, refl)) current next

  -- A change of the password either succeeds or leaves the row, the password, the secret, the
  -- revoked sessions and the flag against a second change as they were: a refusal of any kind, also
  -- where scrypt fails, also while another change is under way.
  pub change_password-kept :
      (w : World) (current next : Option Text)
      → let (w', r) = change_password pf w current next f now in
        ((s : Issued) × (r ≡ changed s)) ⊎ (w' ≡ w)
  change_password-kept w current next = elim (Bool-cases w.gate.changing) [
    | inl e ↦ inr (ap (λ p. p.0) (change_password-busy pf f now w current next e))
    | inr e ↦
        let v = record w { gate = record w.gate { changing = true } } in
        subst (λ p. ((s : Issued) × (p.1 ≡ changed s)) ⊎ (p.0 ≡ w))
          (sym (change_password-idle pf f now w current next e))
          (elim (end_change-kept v current next refl) [
            | inl done ↦ inl done
            | inr same ↦ inr (same ∙ forget_changing w e)
          ])
  ]

  end_change-IsConsistent :
      (w : World) (current next : Option Text)
      → IsConsistent w
      → IsConsistent (end_change pf w current next f now).0
  unfolding end_change
  end_change-IsConsistent w current next v =
      change_inner-cases pf f now w
        (λ p. IsConsistent (record p.0 { gate = record p.0.gate { changing = false } }))
        (λ r. record { stored = v.stored })
        (λ k s. unfold rotate set_password in record { stored = rw (v.stored) }) current next

  -- The gate in memory and the row in the database hold the same password hash, salt and secret
  -- after any attempt to change the password, if they did before.
  pub change_password-IsConsistent :
      (w : World) (current next : Option Text)
      → IsConsistent w
      → IsConsistent (change_password pf w current next f now).0
  change_password-IsConsistent w current next v = elim (Bool-cases w.gate.changing) [
    | inl e ↦ subst (λ p. IsConsistent p.0) (sym (change_password-busy pf f now w current next e)) v
    | inr e ↦
        let v' = record w { gate = record w.gate { changing = true } } in
        subst (λ p. IsConsistent p.0) (sym (change_password-idle pf f now w current next e))
          (end_change-IsConsistent v' current next (record { stored = v.stored }))
  ]
