-- ===== src/Snapshot.antt =====
-- server/store/snapshot.js: the latest state of each target, in memory. `M` is what a collector
-- reports as metrics, `X` as extra; a time is in milliseconds, and the clock is an argument.
pub mod Spells
mod Examples
use home_net_hub.Prelude.{
  ℕ, zero, suc, ◌+◌, ◌-◌, ◌*◌, ◌/◌, ◌%◌, ◌^◌, ◌≤◌, ◌<◌, min, max, String, ◌≡◌, refl, sym, ap, ◌∙◌,
  subst, ◌≢◌, ◌↔◌, ◌⊎◌, inl, inr, Bool, true, false, not, ◌&&◌, ◌||◌, Option, none, some, List, [],
  ◌∷◌, ◌++◌, map, arith, ltb, leb, nat_beq, if◌then◌else◌, ltb→lt, lt→ltb, leb→le, le→leb,
  not_leb→lt, not_ltb→le, nat_beq_iff, tests, and_true, or_false, Bool-cases, Option-cases, if-elim,
  length, take, drop, any, all, select, get_or, is_some, All, length-append, length-take,
  length-drop, length-select, All-append, Eq, ◌==◌, beq_refl, beq_ne, beq_true, nat_eq, string_eq,
  list_eq, option_eq, list_beq_iff,
}
use home_net_hub.Text.{Text, codes}
use home_net_hub.JsMap.{JsMap, get, set}

pub record Entry (M X : Type 0) : Type 0 where
  pub online : Bool
  pub stale : Bool
  pub at : Option ℕ
  pub since : Option ℕ
  pub tried : Option ℕ
  pub metrics : M
  pub extra : Option X
  pub error : Option Text

-- What a collector reports; a field that is left out is none.
pub record Report (M X : Type 0) : Type 0 where
  pub online : Bool
  pub metrics : Option M
  pub extra : Option X
  pub error : Option Text
  pub tried : Option ℕ

-- `a || b || c` on texts
unfoldable pub or_text : Option Text → Text → Text
or_text none d = d
or_text (some []) d = d
or_text (some (c ∷ s)) d = c ∷ s

-- a ?? b
unfoldable pub or_else {ℓ} : {A : Type ℓ} → Option A → Option A → Option A
or_else none b = b
or_else (some a) b = some a

-- A field that is null or left out is none; `extra`, where there is one, is an object.
pub record Shown (M X : Type 0) : Type 0 where
  pub online : Bool
  pub stale : Bool
  pub at : Option ℕ
  pub since : Option ℕ
  pub tried : Option ℕ
  pub metrics : M
  pub extra : Option X
  pub error : Option Text

-- `...(x ? { x } : {})`
unfoldable pub if_nonzero : Option ℕ → Option ℕ
if_nonzero (some (suc n)) = some (suc n)
if_nonzero _ = none

unfoldable pub if_nonempty : Option Text → Option Text
if_nonempty (some (c ∷ s)) = some (c ∷ s)
if_nonempty _ = none

module _ {M X : Type 0} (empty : M) where
  unfoldable pub since_online : Option (Entry M X) → ℕ → ℕ
  since_online none now = now
  since_online (some e) now = if e.online then get_or e.since now else now

  unfoldable pub since_offline : Option (Entry M X) → ℕ → ℕ
  since_offline none now = now
  since_offline (some e) now = if e.online then now else get_or e.since now

  unfoldable pub last_extra : Option (Entry M X) → Option X
  last_extra none = none
  last_extra (some e) = e.extra

  unfoldable pub last_at : Option (Entry M X) → Option ℕ
  last_at none = none
  last_at (some e) = e.at

  unfoldable pub last_metrics : Option (Entry M X) → M
  last_metrics none = empty
  last_metrics (some e) = e.metrics

  unfoldable pub last_error : Option (Entry M X) → Option Text
  last_error none = none
  last_error (some e) = e.error

  unfoldable pub online_entry : Option (Entry M X) → Report M X → ℕ → Entry M X
  online_entry prev r now = record {
    online = true;
    stale = false;
    at = some now;
    since = some (since_online prev now);
    tried = none;
    metrics = get_or r.metrics empty;
    extra = or_else r.extra (last_extra prev);
    error = none;
  }

  -- Keep the last good metrics, mark offline and stale.
  unfoldable pub offline_entry : Option (Entry M X) → Report M X → ℕ → Entry M X
  offline_entry prev r now = record {
    online = false;
    stale = true;
    at = last_at prev;
    since = some (since_offline prev now);
    tried = some (get_or r.tried now);
    metrics = last_metrics prev;
    extra = or_else r.extra (last_extra prev);
    error = some (or_text r.error (or_text (last_error prev) (codes "unreachable")));
  }

  unfoldable pub next_entry : Option (Entry M X) → Report M X → ℕ → Entry M X
  next_entry prev r now = if r.online then online_entry prev r now else offline_entry prev r now

  unfoldable pub update : JsMap Text (Entry M X) → Text → Report M X → ℕ → JsMap Text (Entry M X)
  update m target r now = set m target (next_entry (get m target) r now)

  -- Drop the targets that are not in the configuration.
  unfoldable pub prune : JsMap Text (Entry M X) → List Text → JsMap Text (Entry M X)
  prune m valid = select (λ e. any (λ (v : Text). v == e.0) valid) m

  unfoldable pub shown : Option (Entry M X) → Shown M X
  shown none = record {
    online = false;
    stale = true;
    at = none;
    since = none;
    tried = none;
    metrics = empty;
    extra = none;
    error = none;
  }
  shown (some e) = record {
    online = e.online;
    stale = e.stale;
    at = e.at;
    since = e.since;
    tried = if_nonzero e.tried;
    metrics = e.metrics;
    extra = e.extra;
    error = if_nonempty e.error;
  }

  unfoldable pub to_json : JsMap Text (Entry M X) → List Text → JsMap Text (Shown M X)
  to_json m [] = []
  to_json m (id ∷ ids) = set (to_json m ids) id (shown (get m id))
