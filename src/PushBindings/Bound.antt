-- ===== src/PushBindings/Bound.antt =====
-- A target once bound stays with its host (check of server/store/push_bindings.js).
use home_net_hub.Prelude.{
  ℕ, ◌+◌, ◌≡◌, refl, sym, ap, ◌∙◌, subst, ◌≢◌, inl, inr, ◌&&◌, Option, none, some, List, [], ◌∷◌,
  map, arith, ltb, if◌then◌else◌, Bool-cases, if-elim, ◌==◌, beq_true, nat_eq, string_eq, list_eq,
  option_eq, list_beq_iff,
}
use home_net_hub.Text.{Text, lower}
use home_net_hub.JsMap.{JsMap, get, set, get-set_self, get-set_ne, get-delete_self}
use home_net_hub.PushBindings.{
  Host, Row, State, Answer, accepted, bound, new_row, is_same, alerted, check, check_row,
  check_unbound, check_bound, keep_ip, refuse, refusal, log_refusal, log_after, log_anew, reset,
  Logged, log_every_ms,
}

log_after-rows :
    (st : State) (target key : Text) (now : ℕ) (o : Option Logged)
    → (log_after st target key now o).rows ≡ st.rows
unfolding log_after log_anew
log_after-rows st target key now none = refl
log_after-rows st target key now (some prev) =
    if-elim (λ (s : State). s.rows ≡ st.rows) (prev.key == key && ltb now (prev.at + log_every_ms))
      (record st { logged = set st.logged target (record prev { since = prev.since + 1 }) })
      (log_anew st target key now (if prev.key == key then prev.since else 0)) (λ _. refl)
      (λ _. refl)

log_refusal-rows :
    (st : State) (target : Text) (host : Option Host) (ip : Text) (now : ℕ)
    → (log_refusal st target host ip now).rows ≡ st.rows
unfolding log_refusal
log_refusal-rows st target host ip now = log_after-rows st target _ now (get st.logged target)

-- The row still names the same host, bound at the same time.
pub record IsHeld (r : Row) (rows : JsMap Text Row) (target : Text) : Type 0 where
  pub row : Row
  pub there : get rows target ≡ some row
  pub machine_id : row.machine_id ≡ r.machine_id
  pub hostname : row.hostname ≡ r.hostname
  pub bound_at : row.bound_at ≡ r.bound_at

keep_ip-IsHeld :
    (st : State) (target : Text) (r : Row) (ip : Text)
    → get st.rows target ≡ some r
    → IsHeld r (keep_ip st target r ip).rows target
unfolding keep_ip
keep_ip-IsHeld st target r ip h =
    if-elim (λ (s : State). IsHeld r s.rows target) (ip == r.ip) st
      (record st { rows = set st.rows target (record r { ip = ip }); lines = _ })
      (λ _. record { row = r; there = h; machine_id = refl; hostname = refl; bound_at = refl })
      (λ _. record {
        row = _;
        there = get-set_self st.rows target _;
        machine_id = refl;
        hostname = refl;
        bound_at = refl;
      })

pub refuse-rows :
    (st : State) (target : Text) (r : Row) (host : Option Host) (ip : Text) (now : ℕ)
    → (refuse st target r host ip now).rows ≡ set st.rows target (alerted r host ip now)
unfolding refuse
refuse-rows st target r host ip now = log_refusal-rows _ target host ip now

refuse-IsHeld :
    (st : State) (target : Text) (r : Row) (host : Option Host) (ip : Text) (now : ℕ)
    → IsHeld r (refuse st target r host ip now).rows target
unfolding alerted
refuse-IsHeld st target r host ip now =
    subst (λ m. IsHeld r m target) (sym (refuse-rows st target r host ip now))
      (record {
        row = alerted r host ip now;
        there = get-set_self st.rows target (alerted r host ip now);
        machine_id = refl;
        hostname = refl;
        bound_at = refl;
      })

pub check-some :
    (st : State) (target : Text) (r : Row) (host : Option Host) (ip : Text) (now : ℕ)
    → get st.rows target ≡ some r
    → check st target host ip now ≡ check_bound st target r host ip now
unfolding check check_row
check-some st target r host ip now h = rw (h, check_row)

check-IsHeld :
    (st : State) (target : Text) (r : Row) (host : Option Host) (ip : Text) (now : ℕ)
    → get st.rows target ≡ some r
    → IsHeld r (check st target host ip now).0.rows target
unfolding check_bound
check-IsHeld st target r host ip now h =
    subst (λ (p : State × Answer). IsHeld r p.0.rows target)
      (sym (check-some st target r host ip now h))
      (if-elim (λ (p : State × Answer). IsHeld r p.0.rows target) (is_same host r)
        (keep_ip st target r ip, accepted) (refuse st target r host ip now, refusal host)
        (λ _. keep_ip-IsHeld st target r ip h) (λ _. refuse-IsHeld st target r host ip now))

keep_ip-others :
    (st : State) (target other : Text) (r : Row) (ip : Text)
    → target ≢ other
    → get (keep_ip st target r ip).rows other ≡ get st.rows other
unfolding keep_ip
keep_ip-others st target other r ip ne =
    if-elim (λ (s : State). get s.rows other ≡ get st.rows other) (ip == r.ip) st _ (λ _. refl)
      (λ _. get-set_ne st.rows target other (record r { ip = ip }) ne)

check_row-others :
    (st : State) (target other : Text) (o : Option Row) (host : Option Host) (ip : Text) (now : ℕ)
    → target ≢ other
    → get (check_row st target o host ip now).0.rows other ≡ get st.rows other
unfolding check_row check_unbound check_bound
check_row-others st target other none none ip now ne = refl
check_row-others st target other none (some h) ip now ne =
    get-set_ne st.rows target other (new_row h ip now) ne
check_row-others st target other (some r) host ip now ne =
    if-elim (λ (p : State × Answer). get p.0.rows other ≡ get st.rows other) (is_same host r)
      (keep_ip st target r ip, accepted) (refuse st target r host ip now, refusal host)
      (λ _. keep_ip-others st target other r ip ne)
      (λ _.
        ap (λ m. get m other) (refuse-rows st target r host ip now)
        ∙ get-set_ne st.rows target other (alerted r host ip now) ne)

-- A push to one target changes the row of no other.
pub check-others :
    (st : State) (target other : Text) (host : Option Host) (ip : Text) (now : ℕ)
    → target ≢ other
    → get (check st target host ip now).0.rows other ≡ get st.rows other
unfolding check
check-others st target other host ip now ne =
    check_row-others st target other (get st.rows target) host ip now ne

pub record Push : Type 0 where
  pub target : Text
  pub host : Option Host
  pub ip : Text
  pub now : ℕ

-- Pushes one after another, the latest first.
abbrev pub after_pushes : State → List Push → State
after_pushes st [] = st
after_pushes st (p ∷ earlier) = (check (after_pushes st earlier) p.target p.host p.ip p.now).0

IsHeld-again :
    (r : Row) (rows rows' : JsMap Text Row) (target : Text)
    → IsHeld r rows target
    → ((row : Row) → get rows target ≡ some row → IsHeld row rows' target)
    → IsHeld r rows' target
IsHeld-again r rows rows' target held step =
    let next = step held.row held.there in
    record {
      row = next.row;
      there = next.there;
      machine_id = next.machine_id ∙ held.machine_id;
      hostname = next.hostname ∙ held.hostname;
      bound_at = next.bound_at ∙ held.bound_at;
    }

check_any-IsHeld :
    (st : State) (target : Text) (row : Row) (p : Push)
    → get st.rows target ≡ some row
    → IsHeld row (check st p.target p.host p.ip p.now).0.rows target
check_any-IsHeld st target row p h = elim (Bool-cases (p.target == target)) [
  | inl e ↦
      let same = beq_true p.target target e in
      subst (λ t. IsHeld row (check st p.target p.host p.ip p.now).0.rows t) same
        (check-IsHeld st p.target row p.host p.ip p.now (ap (get st.rows) same ∙ h))
  | inr e ↦ record {
    row = row;
    there =
        check-others st p.target target p.host p.ip p.now
          (λ (same : p.target ≡ target). ground (arith, e, (list_beq_iff p.target target).1 same))
        ∙ h;
    machine_id = refl;
    hostname = refl;
    bound_at = refl;
  }
]

-- A target that is bound stays bound to the same machine, whatever is pushed, to it or to others.
pub after_pushes-IsHeld :
    (st : State) (target : Text) (r : Row) (pushes : List Push)
    → get st.rows target ≡ some r
    → IsHeld r (after_pushes st pushes).rows target
after_pushes-IsHeld st target r [] h = record {
  row = r;
  there = h;
  machine_id = refl;
  hostname = refl;
  bound_at = refl;
}
after_pushes-IsHeld st target r (p ∷ earlier) h =
    IsHeld-again r (after_pushes st earlier).rows _ target
      (after_pushes-IsHeld st target r earlier h)
      (λ row e. check_any-IsHeld (after_pushes st earlier) target row p e)

is_same-held :
    (host : Option Host) (r row : Row)
    → row.machine_id ≡ r.machine_id
    → row.hostname ≡ r.hostname
    → is_same host row ≡ is_same host r
unfolding is_same
is_same-held none r row m n = refl
is_same-held (some h) r row m n =
    ap (λ x. h.machine_id == x && map lower h.hostname == map lower row.hostname) m
    ∙ ap (λ x. h.machine_id == r.machine_id && map lower h.hostname == map lower x) n

check_bound-answer :
    (st : State) (target : Text) (r : Row) (host : Option Host) (ip : Text) (now : ℕ)
    → (check_bound st target r host ip now).1 ≡ (if is_same host r then accepted else refusal host)
unfolding check_bound
check_bound-answer st target r host ip now = ground arith

-- Once a target is bound, the machine it is bound to, and no other, can report as that target, for
-- good: after any pushes to any targets, a push is accepted exactly if it comes from the host of
-- the binding, and otherwise refused, with the reason for a push with no host or with another.
pub check_lasts :
    (st : State) (target : Text) (r : Row) (pushes : List Push) (host : Option Host) (ip : Text)
    (now : ℕ)
    → get st.rows target ≡ some r
    → (check (after_pushes st pushes) target host ip now).1
      ≡ (if is_same host r then accepted else refusal host)
check_lasts st target r pushes host ip now h =
    let s = after_pushes st pushes in
    let held = after_pushes-IsHeld st target r pushes h in
    ap (λ (p : State × Answer). p.1) (check-some s target held.row host ip now held.there)
    ∙ check_bound-answer s target held.row host ip now
    ∙ ap (λ b. if b then accepted else refusal host)
        (is_same-held host r held.row held.machine_id held.hostname)

pub check-none :
    (st : State) (target : Text) (host : Option Host) (ip : Text) (now : ℕ)
    → get st.rows target ≡ none
    → check st target host ip now ≡ check_unbound st target host ip now
unfolding check check_row
check-none st target host ip now h = rw (h, check_row)

get-reset : (st : State) (target : Text) → get (reset st target).0.rows target ≡ none
unfolding reset
get-reset st target = get-delete_self st.rows target

check_unbound-row :
    (st : State) (target : Text) (h : Host) (ip : Text) (now : ℕ)
    → get (check_unbound st target (some h) ip now).0.rows target ≡ some (new_row h ip now)
unfolding check_unbound
check_unbound-row st target h ip now = get-set_self st.rows target (new_row h ip now)

check_unbound-answer :
    (st : State) (target : Text) (h : Host) (ip : Text) (now : ℕ)
    → (check_unbound st target (some h) ip now).1 ≡ bound
unfolding check_unbound
check_unbound-answer st target h ip now = refl

-- The first push with a host binds a target to it, also after a reset, and that host is then the
-- one accepted.
pub check-reset :
    (st : State) (target : Text) (h : Host) (ip : Text) (now : ℕ) (pushes : List Push)
    (host : Option Host) (ip' : Text) (now' : ℕ)
    → let (st', answer) = check (reset st target).0 target (some h) ip now in
      (answer ≡ bound)
      × ((check (after_pushes st' pushes) target host ip' now').1
          ≡ (if is_same host (new_row h ip now) then accepted else refusal host))
check-reset st target h ip now pushes host ip' now' =
    let st0 = (reset st target).0 in
    let q = check-none st0 target (some h) ip now (get-reset st target) in
    (
      ap (λ (p : State × Answer). p.1) q ∙ check_unbound-answer st0 target h ip now,
      check_lasts (check st0 target (some h) ip now).0 target (new_row h ip now) pushes host ip'
          now'
          (ap (λ (p : State × Answer). get p.0.rows target) q
            ∙ check_unbound-row st0 target h ip now),
    )
