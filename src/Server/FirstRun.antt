-- ===== src/Server/FirstRun.antt =====
-- server/index.js: the first-run setup, the one route that can make an admin without one.
pub mod Claimed
use home_net_hub.Prelude.{
  ℕ, zero, suc, ◌+◌, ◌-◌, ◌*◌, ◌/◌, ◌%◌, ◌^◌, ◌≤◌, ◌<◌, min, max, String, ◌≡◌, refl, sym, ap, ◌∙◌,
  subst, ◌≢◌, ◌↔◌, ◌⊎◌, inl, inr, Bool, true, false, not, ◌&&◌, ◌||◌, Option, none, some, List, [],
  ◌∷◌, ◌++◌, map, arith, ltb, leb, nat_beq, if◌then◌else◌, ltb→lt, lt→ltb, leb→le, le→leb,
  not_leb→lt, not_ltb→le, nat_beq_iff, tests, and_true, or_false, Bool-cases, Option-cases, if-elim,
  if_some, map_option, map_option-some, length, take, drop, any, all, select, get_or, is_some, All,
  length-append, length-take, length-drop, length-select, All-append, Eq, ◌==◌, beq_refl, beq_ne,
  beq_true, nat_eq, string_eq, list_eq, option_eq, pair_eq, pair_beq_iff, list_beq_iff,
}
use home_net_hub.Text.{Text}
use home_net_hub.NetGuard.{Checked, allowed, refused}
use home_net_hub.Limiter
use home_net_hub.Limiter.{open_gate, retry_after}
use home_net_hub.Auth.{Row, Gate, Auth}
use home_net_hub.Auth.Session.{issue}
use home_net_hub.Auth.Password.{
  Fresh, SetUp, set_up, mismatch, already_configured, setup_failed, invalid_password,
  setup_admin_password, create_auth,
}
use home_net_hub.Server.{
  Request, Reply, Env, Site, plain, too_many, gate_of_auth, peer_key_of, origin_of, is_same_origin,
  private_client, with_session,
}

-- The gate that createAuth opens on the new row, and the session of whoever set the password.
unfoldable pub reopened : Env → Site → Request → Option Row × Auth → Text → ℕ → Site × Reply
reopened env site req (row, auth) id now = (
  record site { row = row; auth = auth },
  elim (gate_of_auth auth) [
    | none ↦ plain 500
    | some g ↦ with_session req (issue env.platform g id now)
  ],
)

unfoldable pub answer_setup : Env → Site → Request → Option Row → SetUp → Fresh → ℕ → Site × Reply
answer_setup env site req row set_up f now =
    reopened env site req (create_auth env.platform row env.admin_password f.salt f.secret) f.id now
answer_setup env site req row mismatch f now = (record site { row = row }, plain 400)
answer_setup env site req row already_configured f now = (record site { row = row }, plain 409)
answer_setup env site req row setup_failed f now = (record site { row = row }, plain 500)
answer_setup env site req row (invalid_password e) f now = (record site { row = row }, plain 400)

unfoldable pub claim : Env → Site → Request → Option Text → Option Text → Fresh → ℕ → Site × Reply
claim env site req password confirm f now =
    let (row, r) = setup_admin_password env.platform site.row password confirm f.salt f.secret in
    answer_setup env site req row r f now

-- One setup at a time; the flag is down again when it is over.
unfoldable pub claim_alone :
    Env → Site → Request → Option Text → Option Text → Fresh → ℕ → Site × Reply
claim_alone env site req password confirm f now =
    if site.setup_in_flight then (site, plain 409) else claim env site req password confirm f now

unfoldable pub setup_gated :
    Env
    → Site
    → Request
    → Text
    → Option Text
    → Option Text
    → Fresh
    → ℕ
    → Limiter.Buckets × Limiter.Gate
    → Site × Reply
setup_gated env site req ip password confirm f now (m, retry_after s) =
    (record site { setup_limiter = m }, too_many s)
setup_gated env site req ip password confirm f now (m, open_gate) =
    claim_alone env (record site { setup_limiter = (Limiter.fail m ip (peer_key_of req) now).0 })
      req password confirm f now

unfoldable pub setup_local :
    Env → Site → Request → Checked → Option Text → Option Text → Fresh → ℕ → Site × Reply
setup_local env site req (refused r) password confirm f now = (site, plain 403)
setup_local env site req (allowed ip) password confirm f now =
    setup_gated env site req ip password confirm f now
      (Limiter.check site.setup_limiter ip (peer_key_of req) now)

-- POST /api/admin/setup
unfoldable pub setup : Env → Site → Request → Option Text → Option Text → Fresh → ℕ → Site × Reply
setup env site req password confirm f now =
    if not (is_same_origin (origin_of env req))
    then (site, plain 403)
    else if is_some (gate_of_auth site.auth)
    then (site, plain 409)
    else setup_local env site req (private_client env req) password confirm f now
