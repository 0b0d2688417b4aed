-- ===== src/Server/Push/Accepted.antt =====
-- Which pushes server/index.js takes, and when a machine that stopped pushing shows as offline.
use home_net_hub.Prelude.{
  ℕ, ◌+◌, ◌<◌, ◌≡◌, refl, sym, ap, ◌∙◌, ◌≢◌, ◌⊎◌, inl, inr, true, ◌||◌, Option, none, some, List,
  [], ◌∷◌, arith, ltb, nat_beq, if◌then◌else◌, Bool-cases, if-elim, map_option-some, ◌==◌, beq_true,
  nat_eq, string_eq, list_eq, option_eq, pair_eq,
}
use home_net_hub.Text.{Text}
use home_net_hub.JsMap.{JsMap, get, get-set_self}
use home_net_hub.ClientIp.{resolve_client_ip}
use home_net_hub.PushBindings.{
  State, Reported, Answer, accepted, bound, unexpected_host, no_host_info, host_of, name_or_empty,
  norm_ip,
}
use home_net_hub.PushBindings
use home_net_hub.Server.Push.{
  without_machine_id, grace_of, is_push_stale, PushTarget, Body, PushRequest, Hub, TokenCheck,
  token_ok, no_token_env, env_not_set, bad_token, compare_token, named_token, check_push_token,
  is_well_formed, mark_push, handle_push, push_decided, push_body, push_checked, push_known, push,
}

-- No machine's id is in what is handed on.
abbrev pub HasNoMachine : Body → Type 0
HasNoMachine b = (r : Reported) → b.reported ≡ some r → r.machine_id ≡ none

without_machine_id-HasNoMachine : (b : Body) → HasNoMachine (without_machine_id b)
unfolding without_machine_id
without_machine_id-HasNoMachine b r h =
    let cleaned : Reported → Reported =
      λ x. record { machine_id = none; hostname = some (name_or_empty (host_of (some x))) } in
    let (x, _, q) = map_option-some cleaned b.reported r h in
    ap (λ (y : Reported). y.machine_id) (sym q)

-- The bindings let a push through where they take it or bind its target.
abbrev pub Takes : Answer → Type 0
Takes a = (a ≡ accepted) ⊎ (a ≡ bound)

-- A push that is taken: its target is known, its token is the one in the variable that the target
-- names, which is not empty, its body is well formed, and its host is one that the binding takes.
pub record IsTaken (hub : Hub) (env : JsMap Text Text) (trusted : List Text) (req : PushRequest)
    (now : ℕ) (b : Body) : Type 0 where
  pub has_body : req.body ≡ some b
  pub target : PushTarget
  pub known : get hub.targets req.target_id ≡ some target
  pub name : Text
  pub named : target.token_env ≡ some name
  pub token : Text
  pub expected : get env name ≡ some token
  pub not_empty : token ≢ []
  pub sent : req.token ≡ some token
  pub well_formed : is_well_formed req.target_id b ≡ true
  pub unrefused :
      Takes
        (PushBindings.check hub.bindings req.target_id
          (host_of b.reported)
          (norm_ip (some (resolve_client_ip req.peer req.headers trusted).ip))
          now).1

abbrev HasToken : JsMap Text Text → Option Text → Option Text → Type 0
HasToken env named sent =
    (name : Text) × (token : Text) × (named ≡ some name)
    × (get env name ≡ some token)
    × (token ≢ [])
    × (sent ≡ some token)

compare_token-some :
    (expected sent : Option Text)
    → compare_token expected sent ≡ token_ok
    → (token : Text) × (expected ≡ some token) × (token ≢ []) × (sent ≡ some token)
unfolding compare_token
compare_token-some none sent h = absurd (cc h)
compare_token-some (some []) sent h = absurd (cc h)
compare_token-some (some (c ∷ s)) none h = absurd (cc h)
compare_token-some (some (c ∷ s)) (some t) h = elim (Bool-cases (t == (c ∷ s))) [
  | inl b ↦ (c ∷ s, refl, (λ e. absurd (cc e)), ap some (beq_true t (c ∷ s) b))
  | inr b ↦ absurd (cc (sym (ap (λ x. if x then token_ok else bad_token) b) ∙ h))
]

named_token-HasToken :
    (env : JsMap Text Text) (named sent : Option Text)
    → named_token env named sent ≡ token_ok
    → HasToken env named sent
unfolding named_token
named_token-HasToken env none sent h = absurd (cc h)
named_token-HasToken env (some []) sent h = absurd (cc h)
named_token-HasToken env (some (c ∷ s)) sent h =
    let (token, expected, not_empty, same) = compare_token-some (get env (c ∷ s)) sent h in
    (c ∷ s, token, refl, expected, not_empty, same)

module _ (hub : Hub) (env : JsMap Text Text) (trusted : List Text) (req : PushRequest)
    (now : ℕ) where
  -- Either nothing is handed on and no push is marked, or exactly this one, which is as it must be.
  abbrev pub Decided : Hub × ℕ → Type 0
  Decided (after, status) =
      ((after.handled ≡ hub.handled) × (after.last_push ≡ hub.last_push) × (status ≢ 200))
      ⊎ ((b : Body) × (after.handled ≡ (req.target_id, without_machine_id b) ∷ hub.handled)
          × HasNoMachine (without_machine_id b)
          × (get after.last_push req.target_id ≡ some now)
          × (status ≡ 200)
          × IsTaken hub env trusted req now b)

  push_decided-Decided :
      (b : Body) (p : State × Answer)
      → (Takes p.1 → IsTaken hub env trusted req now b)
      → Decided (push_decided hub req.target_id b now p)
  unfolding push_decided handle_push mark_push
  push_decided-Decided b (st, accepted) taken = inr (
    b,
    refl,
    without_machine_id-HasNoMachine b,
    get-set_self hub.last_push req.target_id now,
    refl,
    taken (inl refl),
  )
  push_decided-Decided b (st, bound) taken = inr (
    b,
    refl,
    without_machine_id-HasNoMachine b,
    get-set_self hub.last_push req.target_id now,
    refl,
    taken (inr refl),
  )
  push_decided-Decided b (st, unexpected_host) taken = inl (refl, refl, λ e. ground (arith, e))
  push_decided-Decided b (st, no_host_info) taken = inl (refl, refl, λ e. ground (arith, e))

  push_body-Decided :
      (t : PushTarget) (b : Option Body)
      → get hub.targets req.target_id ≡ some t
      → HasToken env t.token_env req.token
      → req.body ≡ b
      → Decided (push_body hub trusted req now b)
  unfolding push_body
  push_body-Decided t none known has body = inl (refl, refl, λ e. ground (arith, e))
  push_body-Decided t (some b) known (name, token, named, expected, not_empty, sent) body =
      let p =
        PushBindings.check hub.bindings req.target_id (host_of b.reported)
          (norm_ip (some (resolve_client_ip req.peer req.headers trusted).ip)) now in
      if-elim Decided (is_well_formed req.target_id b) (push_decided hub req.target_id b now p)
        (hub, 400)
        (λ ok. push_decided-Decided b p (λ takes. record {
          has_body = body;
          target = t;
          known = known;
          name = name;
          named = named;
          token = token;
          expected = expected;
          not_empty = not_empty;
          sent = sent;
          well_formed = ok;
          unrefused = takes;
        }))
        (λ _. inl (refl, refl, λ e. ground (arith, e)))

  push_checked-Decided :
      (t : PushTarget) (c : TokenCheck)
      → get hub.targets req.target_id ≡ some t
      → check_push_token t req.token env ≡ c
      → Decided (push_checked hub trusted req now c)
  unfolding push_checked check_push_token
  push_checked-Decided t token_ok known h =
      push_body-Decided t req.body known (named_token-HasToken env t.token_env req.token h) refl
  push_checked-Decided t no_token_env known h = inl (refl, refl, λ e. ground (arith, e))
  push_checked-Decided t env_not_set known h = inl (refl, refl, λ e. ground (arith, e))
  push_checked-Decided t bad_token known h = inl (refl, refl, λ e. ground (arith, e))

  push_known-Decided :
      (o : Option PushTarget)
      → get hub.targets req.target_id ≡ o
      → Decided (push_known hub env trusted req now o)
  unfolding push_known
  push_known-Decided none known = inl (refl, refl, λ e. ground (arith, e))
  push_known-Decided (some t) known =
      push_checked-Decided t (check_push_token t req.token env) known refl

  -- A push hands on its own body without the id of the machine, marks its target as heard of at that moment and is answered 200,
  -- and it had a known target, the token of that target, a well-formed body and a host that the
  -- binding takes; or it is refused, hands on nothing and leaves when the target was last heard of.
  pub push-Decided : Decided (push hub env trusted req now)
  unfolding push
  push-Decided = push_known-Decided (get hub.targets req.target_id) refl

-- From a push at `now` to the end of its grace a target is not stale, and stale from then on.
pub push-stale :
    (m : JsMap Text ℕ) (id : Text) (t : PushTarget) (now later : ℕ)
    → 0 < now
    → is_push_stale (mark_push m id now) id t later ≡ ltb (now + grace_of t) later
unfolding is_push_stale mark_push
push-stale m id t now later pos =
    ap (λ o. elim o [ none ↦ true | some at ↦ nat_beq at 0 || ltb (at + grace_of t) later ])
      (get-set_self m id now)
    ∙ ground (arith, pos)
