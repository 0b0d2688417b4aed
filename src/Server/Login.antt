-- ===== src/Server/Login.antt =====
-- server/index.js: login, logout and the change of the password, over Auth and the login limiter.
use home_net_hub.Prelude.{
  ℕ, Option, none, some, if◌then◌else◌, nat_eq, string_eq, list_eq, option_eq, pair_eq,
}
use home_net_hub.Text.{Text}
use home_net_hub.Limiter
use home_net_hub.Limiter.{open_gate, retry_after}
use home_net_hub.Auth.{Gate, enabled, disabled, threw}
use home_net_hub.Auth.Session.{issue, revoke}
use home_net_hub.Auth.Password.{
  Fresh, Changed, changed, busy, invalid_current, unchanged, invalid_new, failed, matches,
  change_password,
}
use home_net_hub.Auth.Cookies.{clear_cookie}
use home_net_hub.Server.{
  Request, Reply, Env, Site, plain, too_many, client_key_of, peer_key_of, token_of, origin_of,
  is_same_origin, require_write, with_session,
}

-- The gate after it was used: where there is none, the site stays.
unfoldable pub set_gate : Site → Gate → Site
set_gate site g = elim site.auth [
  | enabled s old ↦ record site { auth = enabled s g }
  | disabled r ↦ site
  | threw ↦ site
]

-- A failed attempt: 401, with Retry-After when the gate is shut from now on.
unfoldable pub attempt_refused : Limiter.Gate → Reply
attempt_refused open_gate = plain 401
attempt_refused (retry_after s) = record (plain 401) { retry_after = some s }

unfoldable pub refuse_attempt : Site → Text → Text → ℕ → Site × Reply
refuse_attempt site client peer now =
    let (m, after) = Limiter.fail site.login_limiter client peer now in
    (record site { login_limiter = m }, attempt_refused after)

-- The attempt behind the limiter.
unfoldable pub login_try : Env → Site → Gate → Request → Option Text → Text → ℕ → Site × Reply
login_try env site g req password id now =
    if matches env.platform g password
    then (
      record site { login_limiter = Limiter.succeed site.login_limiter (client_key_of env req) },
      with_session req (issue env.platform g id now),
    )
    else refuse_attempt site (client_key_of env req) (peer_key_of req) now

unfoldable pub login_gated :
    Env
    → Site
    → Gate
    → Request
    → Option Text
    → Text
    → ℕ
    → Limiter.Buckets × Limiter.Gate
    → Site × Reply
login_gated env site g req password id now (m, retry_after s) =
    (record site { login_limiter = m }, too_many s)
login_gated env site g req password id now (m, open_gate) =
    login_try env (record site { login_limiter = m }) g req password id now

unfoldable pub login_configured :
    Env → Site → Gate → Request → Option Text → Text → ℕ → Site × Reply
login_configured env site g req password id now =
    if is_same_origin (origin_of env req)
    then login_gated env site g req password id now
        (Limiter.check site.login_limiter (client_key_of env req) (peer_key_of req) now)
    else (site, plain 403)

-- POST /api/login; a password that is no string is none, and `id` is the random id of the session.
unfoldable pub login : Env → Site → Request → Option Text → Text → ℕ → Site × Reply
login env site req password id now = elim site.auth [
  | enabled s g ↦ login_configured env site g req password id now
  | disabled r ↦ (site, plain 401)
  | threw ↦ (site, plain 401)
]

unfoldable pub logged_out : Request → Reply
logged_out req = record (plain 200) { set_cookie = some (clear_cookie req.https) }

unfoldable pub revoke_on : Env → Site → Request → Option Text → ℕ → Site × Reply
revoke_on env site req token now = (
  elim site.auth [
    | enabled s g ↦ set_gate site (revoke env.platform g token now).0
    | disabled r ↦ site
    | threw ↦ site
  ],
  logged_out req,
)

-- POST /api/logout
unfoldable pub logout : Env → Site → Request → ℕ → Site × Reply
logout env site req now =
    if is_same_origin (origin_of env req)
    then elim (token_of env req) [
      | none ↦ (site, plain 500)
      | some token ↦ revoke_on env site req token now
    ]
    else (site, plain 403)

-- What the route answers to the result of changePassword.
unfoldable pub answer_change : Env → Site → Request → ℕ → Changed → Site × Reply
answer_change env site req now (changed s) = (
  record site { login_limiter = Limiter.succeed site.login_limiter (client_key_of env req) },
  with_session req s,
)
answer_change env site req now invalid_current =
    refuse_attempt site (client_key_of env req) (peer_key_of req) now
answer_change env site req now busy = (site, plain 409)
answer_change env site req now unchanged = (site, plain 400)
answer_change env site req now (invalid_new e) = (site, plain 400)
answer_change env site req now failed = (site, plain 500)

unfoldable pub change_try :
    Env → Site → Gate → Request → Option Text → Option Text → Fresh → ℕ → Site × Reply
change_try env site g req current next f now =
    let (w, r) =
      change_password env.platform (record { row = site.row; gate = g }) current next f now in
    answer_change env (record (set_gate site w.gate) { row = w.row }) req now r

unfoldable pub change_gated :
    Env
    → Site
    → Gate
    → Request
    → Option Text
    → Option Text
    → Fresh
    → ℕ
    → Limiter.Buckets × Limiter.Gate
    → Site × Reply
change_gated env site g req current next f now (m, retry_after s) =
    (record site { login_limiter = m }, too_many s)
change_gated env site g req current next f now (m, open_gate) =
    change_try env (record site { login_limiter = m }) g req current next f now

-- POST /api/admin/password, behind ADMIN_WRITE
unfoldable pub admin_password :
    Env → Site → Request → Option Text → Option Text → Fresh → ℕ → Site × Reply
admin_password env site req current next f now = elim (require_write env site req now) [
  | some reply ↦ (site, reply)
  | none ↦ elim site.auth [
    | enabled s g ↦
        change_gated env site g req current next f now
          (Limiter.check site.login_limiter (client_key_of env req) (peer_key_of req) now)
    | disabled r ↦ (site, plain 401)
    | threw ↦ (site, plain 401)
  ]
]
