-- ===== src/Auth/Change.antt =====
-- Changing the password (changePassword of server/auth.js), and first-run setup.
use home_net_hub.Prelude.{
  ℕ, ◌≡◌, refl, sym, ap, ◌∙◌, inl, inr, Bool, true, false, Option, none, some, [], ◌∷◌, arith,
  Bool-cases, Option-cases, nat_eq, string_eq, list_eq, option_eq,
}
use home_net_hub.Text.{Text}
use home_net_hub.Auth.{Platform, Gate, validate_password}
use home_net_hub.Auth.Session.{Issued, issue}
use home_net_hub.Auth.Password.{
  World, Fresh, Changed, changed, busy, failed, change_password, change_inner, change_to,
  change_checked, end_change, begin_change, rotate, matches,
}

-- What a successful change of the password leaves behind, and the session it answers.
pub record IsRotated (pf : Platform) (next : Text) (f : Fresh) (now : ℕ) (w' : World) (s : Issued)
    : Type 0 where
  pub hashed : pf.hash next f.salt ≡ some w'.gate.password_hash
  pub salted : w'.gate.salt ≡ f.salt
  pub secret : w'.gate.signing_secret ≡ f.secret
  pub emptied : w'.gate.revoked ≡ []
  pub session : s ≡ issue pf w'.gate f.id now

module _ (pf : Platform) (f : Fresh) (now : ℕ) where
  change_to-some :
      (w : World) (next k : Text)
      → pf.hash next f.salt ≡ some k
      → change_to pf w next f now ≡ (rotate w k f, changed (issue pf (rotate w k f).gate f.id now))
  unfolding change_to
  change_to-some w next k e = rw (e, change_to)

  change_to-none :
      (w : World) (next : Text)
      → pf.hash next f.salt ≡ none
      → change_to pf w next f now ≡ (w, failed)
  unfolding change_to
  change_to-none w next e = rw (e, change_to)

  rotated :
      (w w' : World) (next k : Text) (s : Issued)
      → pf.hash next f.salt ≡ some k
      → ◌≡◌ {A = World × Changed}
          (rotate w k f, changed (issue pf (rotate w k f).gate f.id now))
          (w', changed s)
      → IsRotated pf next f now w' s
  unfolding rotate
  rotated w w' next k s e h =
      let world = ap (λ p. p.0) h in
      record {
        hashed = e ∙ ap (λ (v : World). some v.gate.password_hash) world;
        salted = sym (ap (λ (v : World). v.gate.salt) world);
        secret = sym (ap (λ (v : World). v.gate.signing_secret) world);
        emptied = sym (ap (λ (v : World). v.gate.revoked) world);
        session = sym (cc (ap (λ p. p.1) h)) ∙ ap (λ (v : World). issue pf v.gate f.id now) world;
      }

  change_to-changed :
      (w w' : World) (next : Text) (s : Issued)
      → change_to pf w next f now ≡ (w', changed s)
      → IsRotated pf next f now w' s
  change_to-changed w w' next s h = elim (Option-cases (pf.hash next f.salt)) [
    | inl e ↦ absurd (cc (sym (change_to-none w next e) ∙ h))
    | inr (k, e) ↦ rotated w w' next k s e (sym (change_to-some w next k e) ∙ h)
  ]

  change_checked-changed :
      (w w' : World) (current : Option Text) (next : Text) (s : Issued)
      → change_checked pf w current (some next) f now ≡ (w', changed s)
      → (validate_password (some next) ≡ none) × (change_to pf w next f now ≡ (w', changed s))
  unfolding change_checked
  change_checked-changed w w' current next s h = (ground (arith, h), ground (arith, h))

  change_inner-changed :
      (w w' : World) (current next : Option Text) (s : Issued)
      → change_inner pf w current next f now ≡ (w', changed s)
      → (matches pf w.gate current ≡ true)
        × (change_checked pf w current next f now ≡ (w', changed s))
  unfolding change_inner
  change_inner-changed w w' current next s h = (ground (arith, h), ground (arith, h))

  end_change-changed :
      (w w' : World) (current : Option Text) (next : Text) (s : Issued)
      → end_change pf w current (some next) f now ≡ (w', changed s)
      → (matches pf w.gate current ≡ true)
        × (validate_password (some next) ≡ none)
        × IsRotated pf next f now w' s
  unfolding end_change issue
  end_change-changed w w' current next s h =
      let inner = change_inner pf w current (some next) f now in
      let (knew, rest) =
        change_inner-changed w inner.0 current (some next) s
          (ap (λ r. (inner.0, r)) (ap (λ p. p.1) h)) in
      let (checked, last) = change_checked-changed w inner.0 current next s rest in
      let r = change_to-changed w inner.0 next s last in
      let world = ap (λ p. p.0) h in
      (
        knew,
        checked,
        record {
          hashed = r.hashed ∙ ap (λ (v : World). some v.gate.password_hash) world;
          salted = sym (ap (λ (v : World). v.gate.salt) world) ∙ r.salted;
          secret = sym (ap (λ (v : World). v.gate.signing_secret) world) ∙ r.secret;
          emptied = sym (ap (λ (v : World). v.gate.revoked) world) ∙ r.emptied;
          session = r.session ∙ ap (λ (v : World). issue pf v.gate f.id now) world;
        },
      )

  pub change_password-busy :
      (w : World) (current next : Option Text)
      → w.gate.changing ≡ true
      → change_password pf w current next f now ≡ (w, busy)
  unfolding change_password begin_change
  change_password-busy w current next e = rw (e, change_password, begin_change)

  pub change_password-idle :
      (w : World) (current next : Option Text)
      → w.gate.changing ≡ false
      → change_password pf w current next f now
        ≡ end_change pf (record w { gate = record w.gate { changing = true } }) current next f now
  unfolding change_password begin_change
  change_password-idle w current next e = rw (e, change_password, begin_change)

  matches-changing :
      (g : Gate) (b : Bool) (pw : Option Text)
      → matches pf (record g { changing = b }) pw ≡ matches pf g pw
  unfolding matches
  matches-changing g b none = refl
  matches-changing g b (some []) = refl
  matches-changing g b (some (c ∷ s)) = refl

  -- A change of the password that succeeds was asked for by someone who knew the present password,
  -- and the new one is acceptable. The gate then has the hash of the new password under the new
  -- salt, the new signing secret and nothing revoked, and the answer is a session signed with the
  -- new secret.
  pub change_password-IsRotated :
      (w w' : World) (current : Option Text) (next : Text) (s : Issued)
      → change_password pf w current (some next) f now ≡ (w', changed s)
      → (matches pf w.gate current ≡ true)
        × (validate_password (some next) ≡ none)
        × IsRotated pf next f now w' s
  change_password-IsRotated w w' current next s h = elim (Bool-cases w.gate.changing) [
    | inl e ↦ absurd (cc (ap (λ p. p.1) (sym (change_password-busy w current (some next) e) ∙ h)))
    | inr e ↦
        let v = record w { gate = record w.gate { changing = true } } in
        let (knew, checked, left) =
          end_change-changed v w' current next s
            (sym (change_password-idle w current (some next) e) ∙ h) in
        (sym (matches-changing w.gate true current) ∙ knew, checked, left)
  ]
