-- ===== src/Server/Sessions.antt =====
-- server/index.js: what a login opens and a logout closes, for the requests that come after.
use home_net_hub.Prelude.{
  ℕ, ◌+◌, ◌<◌, ◌≡◌, refl, sym, ap, ◌∙◌, subst, ◌≢◌, true, false, Option, none, some, arith, leb,
  if◌then◌else◌, if-elim, map_option, nat_eq, string_eq, list_eq, option_eq, pair_eq,
}
use home_net_hub.Text.{Text}
use home_net_hub.Text.Split.{Lacks}
use home_net_hub.Text.Decimal.{decimal}
use home_net_hub.JsMap.{has}
use home_net_hub.Limiter
use home_net_hub.Limiter.{open_gate, retry_after}
use home_net_hub.Auth.{Auth, Gate, Source, enabled, disabled, threw, session_ttl_ms}
use home_net_hub.Auth.Session.{
  issue, verify, valid, denied, session_body, session_expired, session_revoked,
}
use home_net_hub.Auth.Password.{matches}
use home_net_hub.Auth.Lifecycle.{verify-issue}
use home_net_hub.Auth.Cookies.{serialize_cookie}
use home_net_hub.Server.{
  Request, Reply, Env, Site, plain, client_key_of, peer_key_of, token_of, origin_of, is_same_origin,
  gate_of_auth, session_of, admit, require_admin, with_session,
}
use home_net_hub.Server.Login.{
  attempt_refused, refuse_attempt, login_try, login_gated, login_configured, login,
}

-- What a login that is answered 200 hands out.
pub record IsLogin (env : Env) (site : Site) (g : Gate) (req : Request) (password : Option Text)
    (id : Text) (now : ℕ) (o : Site × Reply) : Type 0 where
  pub auth : o.0.auth ≡ site.auth
  pub matched : matches env.platform g password ≡ true
  pub same : is_same_origin (origin_of env req) ≡ true
  pub not_locked :
      (Limiter.check site.login_limiter (client_key_of env req) (peer_key_of req) now).1 ≡ open_gate
  pub cookie :
      o.1.set_cookie
      ≡ some (
          serialize_cookie
            (issue env.platform g id now).value
            req.https
            (issue env.platform g id now).max_age_s)

attempt_refused-status : (after : Limiter.Gate) → (attempt_refused after).status ≢ 200
unfolding attempt_refused
attempt_refused-status open_gate e = ground (arith, e)
attempt_refused-status (retry_after s) e = ground (arith, e)

module _ (env : Env) (site : Site) (g : Gate) (req : Request) (password : Option Text) (id : Text)
    (now : ℕ) where
  abbrev Outcome : Site × Reply → Type 0
  Outcome o = o.1.status ≡ 200 → IsLogin env site g req password id now o

  login_gated-Outcome :
      (p : Limiter.Buckets × Limiter.Gate)
      → is_same_origin (origin_of env req) ≡ true
      → Limiter.check site.login_limiter (client_key_of env req) (peer_key_of req) now ≡ p
      → Outcome (login_gated env site g req password id now p)
  unfolding login_gated login_try refuse_attempt with_session
  login_gated-Outcome (m, retry_after s) same gate = λ ok. absurd (ground (arith, ok))
  login_gated-Outcome (m, open_gate) same gate =
      let ready : Site = record site { login_limiter = m } in
      let key = client_key_of env req in
      if-elim Outcome (matches env.platform g password)
        (
          record ready { login_limiter = Limiter.succeed m key },
          with_session req (issue env.platform g id now),
        )
        (refuse_attempt ready key (peer_key_of req) now)
        (λ b ok. record {
          auth = refl;
          matched = b;
          same = same;
          not_locked = ap (λ (x : Limiter.Buckets × Limiter.Gate). x.1) gate;
          cookie = refl;
        })
        (λ _ ok. absurd (attempt_refused-status (Limiter.fail m key (peer_key_of req) now).1 ok))

  pub login-IsLogin :
      (s : Source) → site.auth ≡ enabled s g → Outcome (login env site req password id now)
  unfolding login login_configured
  login-IsLogin s e =
      let body : Auth → Site × Reply = λ a. elim a [
        | enabled s' g' ↦ login_configured env site g' req password id now
        | disabled r ↦ (site, plain 401)
        | threw ↦ (site, plain 401)
      ] in
      let key = client_key_of env req in
      subst (λ a. Outcome (body a)) (sym e)
        (if-elim Outcome (is_same_origin (origin_of env req))
          (login_gated env site g req password id now
            (Limiter.check site.login_limiter key (peer_key_of req) now))
          (site, plain 403)
          (λ b.
            login_gated-Outcome (Limiter.check site.login_limiter key (peer_key_of req) now) b refl)
          (λ _ ok. absurd (ground (arith, ok))))

require_admin-valid :
    (env : Env) (site : Site) (s : Source) (g : Gate) (req : Request) (token : Option Text)
    (now exp : ℕ) (id : Option Text)
    → site.auth ≡ enabled s g
    → token_of env req ≡ some token
    → verify env.platform g token now ≡ valid exp id
    → require_admin env site req now ≡ none
unfolding require_admin gate_of_auth session_of admit
require_admin-valid env site s g req token now exp id e t v =
    ap
      (λ a. elim (gate_of_auth a) [
        | none ↦ some (plain 401)
        | some g' ↦ admit (session_of env g' req now)
      ])
      e
    ∙ ap (λ o. admit (map_option (λ x. verify env.platform g x now) o)) t
    ∙ ap (λ v'. admit (some v')) v

-- Who logs in with the right password and then sends the session back is let through the guard
-- of the admin routes until twelve hours after the login: a login answered 200 had the password
-- of the gate, and its cookie carries the session. Number reads back what String prints, neither
-- the id nor the signature has a dot, and the id was not revoked.
pub login-require_admin :
    (env : Env) (site : Site) (s : Source) (g : Gate) (req next : Request) (password : Option Text)
    (id : Text) (now t : ℕ)
    → site.auth ≡ enabled s g
    → (login env site req password id now).1.status ≡ 200
    → ((n : ℕ) → env.platform.to_number (decimal n) ≡ some n)
    → Lacks b'.' id
    → Lacks b'.' (env.platform.sign g.signing_secret (session_body (now + session_ttl_ms) id))
    → has g.revoked (some id) ≡ false
    → token_of env next ≡ some (some (issue env.platform g id now).value)
    → t < now + session_ttl_ms
    → (matches env.platform g password ≡ true)
      × ((login env site req password id now).1.set_cookie
          ≡ some (
              serialize_cookie
                (issue env.platform g id now).value
                req.https
                (issue env.platform g id now).max_age_s))
      × (require_admin env (login env site req password id now).0 next t ≡ none)
login-require_admin env site s g req next password id now t e ok number plain_id plain_sig unrevoked
      token early =
    let l = login-IsLogin env site g req password id now s e ok in
    let token' = some (issue env.platform g id now).value in
    let late : leb (now + session_ttl_ms) t ≡ false = ground (arith, early) in
    let v : verify env.platform g token' t ≡ valid (now + session_ttl_ms) (some id) =
      verify-issue env.platform g id now t number plain_id plain_sig
      ∙ ap
          (λ b.
            if b
            then denied session_expired
            else if has g.revoked (some id)
            then denied session_revoked
            else valid (now + session_ttl_ms) (some id))
          late
      ∙ ap (λ b. if b then denied session_revoked else valid (now + session_ttl_ms) (some id))
          unrevoked in
    (
      l.matched,
      l.cookie,
      require_admin-valid env (login env site req password id now).0 s g next token' t
          (now + session_ttl_ms) (some id) (l.auth ∙ e) token v,
    )
