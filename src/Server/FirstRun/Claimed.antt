-- ===== src/Server/FirstRun/Claimed.antt =====
-- Who may claim a fresh install through POST /api/admin/setup of server/index.js.
use home_net_hub.Prelude.{
  ℕ, ◌≡◌, refl, ap, ◌⊎◌, inl, inr, true, false, not, Option, none, some, arith, if◌then◌else◌,
  if-elim, is_some, nat_eq, string_eq, list_eq, option_eq, pair_eq,
}
use home_net_hub.Text.{Text}
use home_net_hub.NetGuard.{Checked, allowed, refused}
use home_net_hub.Limiter
use home_net_hub.Limiter.{open_gate, retry_after}
use home_net_hub.Auth.Password.{Fresh}
use home_net_hub.Server.{
  Request, Reply, Env, Site, plain, gate_of_auth, origin_of, is_same_origin, private_client,
  peer_key_of,
}
use home_net_hub.Server.FirstRun.{claim, claim_alone, setup_gated, setup_local, setup}

-- What a setup may change only for a request of its own page from the local network to an install
-- without an admin, with the gate of the setup limiter open and no other setup in progress.
pub record MayClaim (env : Env) (site : Site) (req : Request) (now : ℕ) : Type 0 where
  pub same : is_same_origin (origin_of env req) ≡ true
  pub unconfigured : gate_of_auth site.auth ≡ none
  pub ip : Text
  pub local : private_client env req ≡ allowed ip
  pub not_locked : (Limiter.check site.setup_limiter ip (peer_key_of req) now).1 ≡ open_gate
  pub alone : site.setup_in_flight ≡ false

abbrev pub IsSame : Site → Site → Type 0
IsSame site after = (after.row ≡ site.row) × (after.auth ≡ site.auth)

none_of : {A : Type 0} (o : Option A) → is_some o ≡ false → o ≡ none
none_of none h = refl
none_of (some a) h = absurd (cc h)

module _ (env : Env) (site : Site) (req : Request) (password confirm : Option Text) (f : Fresh)
    (now : ℕ) where
  abbrev Outcome : Site × Reply → Type 0
  Outcome o = IsSame site o.0 ⊎ MayClaim env site req now

  gated-Outcome :
      (ip : Text) (p : Limiter.Buckets × Limiter.Gate)
      → is_same_origin (origin_of env req) ≡ true
      → gate_of_auth site.auth ≡ none
      → private_client env req ≡ allowed ip
      → Limiter.check site.setup_limiter ip (peer_key_of req) now ≡ p
      → Outcome (setup_gated env site req ip password confirm f now p)
  unfolding setup_gated claim_alone
  gated-Outcome ip (m, retry_after s) same fresh local gate = inl (refl, refl)
  gated-Outcome ip (m, open_gate) same fresh local gate =
      let ready : Site = record site {
        setup_limiter = (Limiter.fail m ip (peer_key_of req) now).0;
      } in
      if-elim Outcome site.setup_in_flight (ready, plain 409)
        (claim env ready req password confirm f now) (λ _. inl (refl, refl))
        (λ b. inr (record {
          same = same;
          unconfigured = fresh;
          ip = ip;
          local = local;
          not_locked = ap (λ (x : Limiter.Buckets × Limiter.Gate). x.1) gate;
          alone = b;
        }))

  local-Outcome :
      (c : Checked)
      → is_same_origin (origin_of env req) ≡ true
      → gate_of_auth site.auth ≡ none
      → private_client env req ≡ c
      → Outcome (setup_local env site req c password confirm f now)
  unfolding setup_local
  local-Outcome (refused r) same fresh local = inl (refl, refl)
  local-Outcome (allowed ip) same fresh local =
      gated-Outcome ip (Limiter.check site.setup_limiter ip (peer_key_of req) now) same fresh local
        refl

  -- The setup leaves the admin row and the gate as they were, unless the request is same-origin and
  -- from the local network, nothing is configured, the setup limiter is open and no other setup runs.
  pub setup-MayClaim :
      IsSame site (setup env site req password confirm f now).0 ⊎ MayClaim env site req now
  unfolding setup
  setup-MayClaim =
      if-elim Outcome (not (is_same_origin (origin_of env req))) (site, plain 403)
        (if is_some (gate_of_auth site.auth)
          then (site, plain 409)
          else setup_local env site req (private_client env req) password confirm f now)
        (λ _. inl (refl, refl))
        (λ s.
          if-elim Outcome (is_some (gate_of_auth site.auth)) (site, plain 409)
            (setup_local env site req (private_client env req) password confirm f now)
            (λ _. inl (refl, refl))
            (λ u. local-Outcome (private_client env req) (ground (arith, s)) (none_of _ u) refl))
