-- ===== src/Auth/Ended.antt =====
-- What a change of the password (changePassword of server/auth.js) means for the sessions and the
-- passwords of before and after.
use home_net_hub.Prelude.{
  ℕ, ◌+◌, ◌≡◌, sym, ap, ◌∙◌, subst, ◌≢◌, inl, inr, true, Option, none, some, [], ◌∷◌, arith, ltb,
  leb, if◌then◌else◌, Bool-cases, length, beq_refl, nat_eq, string_eq, list_eq, option_eq,
}
use home_net_hub.Text.{Text}
use home_net_hub.Text.Split.{Lacks}
use home_net_hub.Text.Decimal.{decimal}
use home_net_hub.JsMap.{get}
use home_net_hub.Auth.{Platform, Gate, validate_password, max_password, session_ttl_ms}
use home_net_hub.Auth.Session.{Issued, verify, valid, denied, session_expired, session_body}
use home_net_hub.Auth.Password.{World, Fresh, changed, change_password, matches}
use home_net_hub.Auth.Lifecycle.{verify-signed, verify-issue}
use home_net_hub.Auth.Change.{change_password-IsRotated}

pub matches_own :
    (pf : Platform) (g : Gate) (pw : Text)
    → validate_password (some pw) ≡ none
    → pf.hash pw g.salt ≡ some g.password_hash
    → matches pf g (some pw) ≡ true
unfolding matches validate_password
matches_own pf g [] ok e = cc
matches_own pf g (c ∷ p) ok e = elim (Bool-cases (ltb max_password (length (c ∷ p)))) [
  | inl big ↦ ground (arith, ok, big)
  | inr small ↦ ground (arith, small, e, beq_refl g.password_hash)
]

module _ (pf : Platform) (w w' : World) (current : Option Text) (next : Text) (f : Fresh)
    (now : ℕ) where
  -- Changing the password ends every session issued before: a token that the gate accepted at any
  -- time is never accepted after the change. The new secret differs from the old one, and the
  -- signatures of one text under two secrets differ.
  pub change_password-ends :
      (s : Issued) (token : Text) (t t' exp exp' : ℕ) (id id' : Option Text)
      → ((k k' b : Text) → k ≢ k' → pf.sign k b ≢ pf.sign k' b)
      → w.gate.signing_secret ≢ f.secret
      → change_password pf w current (some next) f now ≡ (w', changed s)
      → verify pf w.gate (some token) t ≡ valid exp id
      → verify pf w'.gate (some token) t' ≢ valid exp' id'
  change_password-ends s token t t' exp exp' id id' unforgeable new h before after =
      let (knew, checked, left) = change_password-IsRotated pf f now w w' current next s h in
      let (b, e) = verify-signed pf w.gate token t exp id before in
      let (b', e') = verify-signed pf w'.gate token t' exp' id' after in
      unforgeable w.gate.signing_secret f.secret b new (cc (sym e ∙ e', left.secret))

  -- After a successful change the new password is the one that matches, and the session handed back
  -- is accepted until twelve hours later and expired from then on (with the conditions of
  -- `verify-issue`).
  pub change_password-admits :
      (s : Issued) (t : ℕ)
      → ((n : ℕ) → pf.to_number (decimal n) ≡ some n)
      → Lacks b'.' f.id
      → Lacks b'.' (pf.sign f.secret (session_body (now + session_ttl_ms) f.id))
      → change_password pf w current (some next) f now ≡ (w', changed s)
      → (matches pf w'.gate (some next) ≡ true)
        × (verify pf w'.gate (some s.value) t ≡ (
            if leb (now + session_ttl_ms) t
            then denied session_expired
            else valid (now + session_ttl_ms) (some f.id)))
  change_password-admits s t number plain sig h =
      let (knew, checked, left) = change_password-IsRotated pf f now w w' current next s h in
      (
        matches_own pf w'.gate next checked (ap (pf.hash next) left.salted ∙ left.hashed),
        ap (λ (i : Issued). verify pf w'.gate (some i.value) t) left.session
            ∙ verify-issue pf w'.gate f.id now t number plain (
                subst (λ k. Lacks b'.' (pf.sign k (session_body (now + session_ttl_ms) f.id)))
                  (sym left.secret) sig)
            ∙ unfold get in rw (left.emptied),
      )
