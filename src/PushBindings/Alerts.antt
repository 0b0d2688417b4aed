-- ===== src/PushBindings/Alerts.antt =====
-- The warning that a refused push leaves on the card (server/store/push_bindings.js).
use home_net_hub.Prelude.{
  ℕ, zero, suc, ◌+◌, ◌<◌, ◌≡◌, refl, sym, ap, ◌∙◌, false, Option, none, some, arith, ltb,
  if◌then◌else◌, get_or, nat_eq, string_eq, list_eq, option_eq,
}
use home_net_hub.Text.{Text}
use home_net_hub.JsMap.{JsMap, get, get-set_self}
use home_net_hub.PushBindings.{
  Host, Row, State, Answer, accepted, bound, is_same, alerted, check, check_row, check_unbound,
  check_bound, refuse, refusal, alert_of, alert_at, alert_ttl_ms, clear_alert, clear_rows, cleared,
  name_or_empty,
}
use home_net_hub.PushBindings.Bound.{check-some, refuse-rows}

check_bound-foreign :
    (st : State) (target : Text) (r : Row) (host : Option Host) (ip : Text) (now : ℕ)
    → is_same host r ≡ false
    → check_bound st target r host ip now ≡ (refuse st target r host ip now, refusal host)
unfolding check_bound
check_bound-foreign st target r host ip now other = rw (other, check_bound)

check_foreign-row :
    (st : State) (target : Text) (r : Row) (host : Option Host) (ip : Text) (now : ℕ)
    → get st.rows target ≡ some r
    → is_same host r ≡ false
    → get (check st target host ip now).0.rows target ≡ some (alerted r host ip now)
check_foreign-row st target r host ip now h other =
    ap (λ (p : State × Answer). get p.0.rows target)
      (check-some st target r host ip now h ∙ check_bound-foreign st target r host ip now other)
    ∙ ap (λ m. get m target) (refuse-rows st target r host ip now)
    ∙ get-set_self st.rows target (alerted r host ip now)

-- A refused push shows on the card of its target from then on for a day, and not longer, with its
-- address, the name it gave, when the run of refusals began and one refusal more than before.
pub check-alert :
    (st : State) (target : Text) (r : Row) (host : Option Host) (ip : Text) (now t : ℕ)
    → get st.rows target ≡ some r
    → is_same host r ≡ false
    → 0 < now
    → alert_of (get (check st target host ip now).0.rows target) t ≡ (
        if ltb (now + alert_ttl_ms) t
        then none
        else some (record {
          ip = some ip;
          hostname = name_or_empty host;
          at = now;
          first = some (get_or r.alert_first now);
          count = r.alert_count + 1;
        }))
unfolding alert_of alert_at alerted
check-alert st target r host ip zero t h other pos = absurd (omega arith)
check-alert st target r host ip (suc now) t h other pos =
    ap (λ o. alert_of o t) (check_foreign-row st target r host ip (suc now) h other)

abbrev cleared_row : Option Row → Option Row
cleared_row none = none
cleared_row (some r) = some (cleared r)

clear_rows-cleared :
    (rows : JsMap Text Row) (target : Text) (o : Option Row)
    → get rows target ≡ o
    → get (clear_rows rows target o) target ≡ cleared_row o
unfolding clear_rows
clear_rows-cleared rows target none h = h
clear_rows-cleared rows target (some r) h = get-set_self rows target (cleared r)

answer_of : Option Row → Option Host → Answer
answer_of none none = accepted
answer_of none (some h) = bound
answer_of (some r) host = if is_same host r then accepted else refusal host

check_row-answer :
    (st : State) (target : Text) (o : Option Row) (host : Option Host) (ip : Text) (now : ℕ)
    → (check_row st target o host ip now).1 ≡ answer_of o host
unfolding check_row check_unbound check_bound answer_of
check_row-answer st target none none ip now = refl
check_row-answer st target none (some h) ip now = refl
check_row-answer st target (some r) host ip now = ground arith

check-answer :
    (st : State) (target : Text) (o : Option Row) (host : Option Host) (ip : Text) (now : ℕ)
    → get st.rows target ≡ o
    → (check st target host ip now).1 ≡ answer_of o host
unfolding check
check-answer st target o host ip now h =
    check_row-answer st target (get st.rows target) host ip now ∙ ap (λ x. answer_of x host) h

cleared-answer :
    (o : Option Row) (host : Option Host) → answer_of (cleared_row o) host ≡ answer_of o host
unfolding answer_of cleared is_same
cleared-answer none none = refl
cleared-answer none (some h) = refl
cleared-answer (some r) none = refl
cleared-answer (some r) (some h) = refl

cleared-alert : (o : Option Row) (t : ℕ) → alert_of (cleared_row o) t ≡ none
unfolding alert_of alert_at cleared
cleared-alert none t = refl
cleared-alert (some r) t = refl

-- Clearing the warning keeps the binding: the target has no warning, and a push is judged by the
-- same machine as before.
pub clear_alert-kept :
    (st : State) (target : Text) (host : Option Host) (ip : Text) (now t : ℕ)
    → let st' = (clear_alert st target).0 in
      (alert_of (get st'.rows target) t ≡ none)
      × ((check st' target host ip now).1 ≡ (check st target host ip now).1)
unfolding clear_alert
clear_alert-kept st target host ip now t =
    let o = get st.rows target in
    let left = clear_rows-cleared st.rows target o refl in
    (
      ap (λ x. alert_of x t) left ∙ cleared-alert o t,
      check-answer _ target (cleared_row o) host ip now left
          ∙ cleared-answer o host
          ∙ sym (check-answer st target o host ip now refl),
    )
