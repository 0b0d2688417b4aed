-- ===== src/Auth/Revoked.antt =====
-- Logging out (revoke of server/auth.js) and changing the password: what they end.
use home_net_hub.Prelude.{
  ℕ, ◌≤◌, ◌<◌, ◌≡◌, refl, sym, ap, ◌∙◌, subst, ◌≢◌, ◌⊎◌, inl, inr, Option, none, some, List, [],
  ◌∷◌, arith, ltb, ltb→lt, not_ltb→le, Bool-cases, All, ◌==◌, nat_eq, string_eq, list_eq, option_eq,
}
use home_net_hub.Text.{Text}
use home_net_hub.JsMap.{JsMap, get, set, get-set_ne, get-set_self}
use home_net_hub.Auth.{Platform, Gate}
use home_net_hub.Auth.Session.{
  Verdict, Denied, Verdict, Denied, verify, valid, denied, forget_expired, revoke,
}
use home_net_hub.Auth.Lifecycle.{verify-IsGenuine, token_claims_lem}

-- Logouts one after another, the latest first.
abbrev pub revoke_all : Platform → Gate → List (Option Text × ℕ) → Gate
revoke_all pf g [] = g
revoke_all pf g ((token, t) ∷ earlier) = (revoke pf (revoke_all pf g earlier) token t).0

-- The id is on the list, or the session was over by then.
abbrev IsOut : Gate → Option Text → ℕ → ℕ → Type 0
IsOut g id exp t = (get g.revoked id ≡ some exp) ⊎ (exp ≤ t)

get-forget_expired :
    (m : JsMap (Option Text) ℕ) (id : Option Text) (exp t : ℕ)
    → get m id ≡ some exp
    → t < exp
    → get (forget_expired t m) id ≡ some exp
unfolding get forget_expired
get-forget_expired [] id exp t e l = cc
get-forget_expired (x ∷ m) id exp t e l = elim (Bool-cases (x.0 == id)) [
  | inl same ↦ ground (arith, e, same, l)
  | inr other ↦ ground (arith, e, other, get-forget_expired m id exp t)
]

-- No logout of the list is of a session with this id.
abbrev pub Others : Platform → Option Text → List (Option Text × ℕ) → Type 0
Others pf id later =
    All
      (λ a.
        (g : Gate) (exp : ℕ) (other : Option Text)
        → verify pf g a.0 a.1 ≡ valid exp other
        → other ≢ id)
      later

verify-cases :
    (pf : Platform) (g : Gate) (token : Option Text) (t : ℕ)
    → ((r : Denied) × (verify pf g token t ≡ denied r))
      ⊎ ((exp : ℕ) × (id : Option Text) × (verify pf g token t ≡ valid exp id))
verify-cases pf g token t = go (verify pf g token t) refl
  where
    go :
        (v : Verdict)
        → verify pf g token t ≡ v
        → ((r : Denied) × (verify pf g token t ≡ denied r))
          ⊎ ((exp : ℕ) × (id : Option Text) × (verify pf g token t ≡ valid exp id))
    go (valid exp id) e = inr (exp, id, e)
    go (denied r) e = inl (r, e)

revoke-valid :
    (pf : Platform) (g : Gate) (token : Option Text) (t exp : ℕ) (id : Option Text)
    → verify pf g token t ≡ valid exp id
    → (revoke pf g token t).0 ≡ record g { revoked = forget_expired t (set g.revoked id exp) }
unfolding revoke
revoke-valid pf g token t exp id e = rw (e, revoke)

revoke-denied :
    (pf : Platform) (g : Gate) (token : Option Text) (t : ℕ) (r : Denied)
    → verify pf g token t ≡ denied r
    → (revoke pf g token t).0 ≡ g
unfolding revoke
revoke-denied pf g token t r e = rw (e, revoke)

kept_or_over :
    (m : JsMap (Option Text) ℕ) (id : Option Text) (exp t now : ℕ)
    → get m id ≡ some exp
    → t ≤ now
    → (get (forget_expired t m) id ≡ some exp) ⊎ (exp ≤ now)
kept_or_over m id exp t now e le = elim (Bool-cases (ltb t exp)) [
  | inl l ↦ inl (get-forget_expired m id exp t e (ltb→lt t exp l))
  | inr n ↦ inr (omega (arith, not_ltb→le t exp n))
]

revoke_step :
    (pf : Platform) (g : Gate) (token : Option Text) (t now exp : ℕ) (id : Option Text)
    → ((exp' : ℕ) (other : Option Text) → verify pf g token t ≡ valid exp' other → other ≢ id)
    → t ≤ now
    → IsOut g id exp now
    → IsOut (revoke pf g token t).0 id exp now
revoke_step pf g token t now exp id others le (inr over) = inr over
revoke_step pf g token t now exp id others le (inl out) = elim (verify-cases pf g token t) [
  | inl (r, e) ↦ inl (ap (λ (k : Gate). get k.revoked id) (revoke-denied pf g token t r e) ∙ out)
  | inr (exp', other, e) ↦
      subst (λ (k : Gate). IsOut k id exp now) (sym (revoke-valid pf g token t exp' other e))
        (kept_or_over (set g.revoked other exp') id exp t now
          (get-set_ne g.revoked other id exp' (others exp' other e) ∙ out) le)
]

revoke_all-IsOut :
    (pf : Platform) (g : Gate) (later : List (Option Text × ℕ)) (now exp : ℕ) (id : Option Text)
    → Others pf id later
    → All (λ a. a.1 ≤ now) later
    → IsOut g id exp now
    → IsOut (revoke_all pf g later) id exp now
revoke_all-IsOut pf g [] now exp id o le out = out
revoke_all-IsOut pf g (a ∷ earlier) now exp id o le out =
    revoke_step pf (revoke_all pf g earlier) a.0 a.1 now exp id
      (λ exp' other e. o.0 (revoke_all pf g earlier) exp' other e) le.0
      (revoke_all-IsOut pf g earlier now exp id o.1 le.1 out)

-- A session that was logged out stays refused for good, through any later logouts of other
-- sessions: the list of revoked ids forgets an id only when its session has expired.
pub revoke_lasts :
    (pf : Platform) (g : Gate) (token : Text) (t exp : ℕ) (id : Option Text)
    (later : List (Option Text × ℕ)) (now exp' : ℕ) (id' : Option Text)
    → verify pf g (some token) t ≡ valid exp id
    → Others pf id later
    → All (λ a. a.1 ≤ now) later
    → t ≤ now
    → verify pf (revoke_all pf (revoke pf g (some token) t).0 later) (some token) now
      ≢ valid exp' id'
revoke_lasts pf g token t exp id later now exp' id' v o le start again =
    let k = revoke_all pf (revoke pf g (some token) t).0 later in
    let same =
      sym (token_claims_lem pf g token t exp id v)
      ∙ token_claims_lem pf k token now exp' id' again in
    let genuine = verify-IsGenuine pf k token now exp' id' again in
    let first =
      subst (λ (m : Gate). IsOut m id exp now) (sym (revoke-valid pf g (some token) t exp id v))
        (kept_or_over (set g.revoked id exp) id exp t now (get-set_self g.revoked id exp) start) in
    refuse k id id' exp exp' now same genuine.kept genuine.alive
      (revoke_all-IsOut pf (revoke pf g (some token) t).0 later now exp id o le first)
  where
    refuse :
        (k : Gate) (id id' : Option Text) (exp exp' now : ℕ)
        → ◌≡◌ {A = Option ℕ × Option Text} (some exp, id) (some exp', id')
        → get k.revoked id' ≡ none
        → now < exp'
        → IsOut k id exp now
        → ⊥
    refuse k id id' exp exp' now same kept alive (inl out) = cc (ap (λ p. p.1) same, out, kept)
    refuse k id id' exp exp' now same kept alive (inr over) = ground (arith, ap (λ p. p.0) same)
