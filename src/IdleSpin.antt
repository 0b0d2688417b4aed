-- ===== src/IdleSpin.antt =====
-- server/idle_spin.js: a machine whose cards read busy while it serves nothing. A figure that is no
-- finite number is none; figures are natural numbers, so that Math.round leaves them.
pub mod Judged
mod Examples
use home_net_hub.Prelude.{
  ℕ, zero, suc, ◌+◌, ◌-◌, ◌*◌, ◌/◌, ◌%◌, ◌^◌, ◌≤◌, ◌<◌, min, max, String, ◌≡◌, refl, sym, ap, ◌∙◌,
  subst, ◌≢◌, ◌↔◌, ◌⊎◌, inl, inr, Bool, true, false, not, ◌&&◌, ◌||◌, Option, none, some, List, [],
  ◌∷◌, ◌++◌, map, arith, ltb, leb, nat_beq, if◌then◌else◌, ltb→lt, lt→ltb, leb→le, le→leb,
  not_leb→lt, not_ltb→le, nat_beq_iff, tests, and_true, or_false, Bool-cases, Option-cases, if-elim,
  if_some, if_none, map_option, map_option-some, length, take, drop, any, all, select, get_or,
  is_some, All, length-append, length-take, length-drop, length-select, All-append, All-map,
  All-intro, Eq, ◌==◌, beq_refl, beq_ne, beq_true, nat_eq, string_eq, list_eq, option_eq, pair_eq,
  pair_beq_iff, list_beq_iff,
}
use home_net_hub.Text.{Text, codes}
use home_net_hub.Text.Decimal.{decimal}
use home_net_hub.JsMap.{JsMap, get, set}
use home_net_hub.UserStore.{sorted}

abbrev pub busy_min : ℕ
busy_min = 90

abbrev pub mclk_max_mhz : ℕ
mclk_max_mhz = 500

abbrev pub mem_busy_max : ℕ
mem_busy_max = 5

abbrev pub quiet_ms : ℕ
quiet_ms = 10000

abbrev pub live_max_age_ms : ℕ
live_max_age_ms = 10000

-- A card of the push; a member of gpus[] that is no object is left out.
pub record Reading : Type 0 where
  pub idx : Option ℕ
  pub util : Option ℕ
  pub mclk : Option ℕ
  pub mem : Option ℕ

pub record Card : Type 0 where
  pub i : ℕ
  pub util : Option ℕ
  pub mclk : Option ℕ
  pub mem : Option ℕ

-- The node in the last live view: whether its kind is strata, and what runs and waits there.
pub record Node : Type 0 where
  pub strata : Bool
  pub reachable : Bool
  pub at : Option ℕ
  pub running : ℕ
  pub queued : ℕ
  pub last_at : Option ℕ

pub record Spin : Type 0 where
  pub busy : ℕ
  pub cards : List Card
  pub power : Option ℕ

pub record Metric : Type 0 where
  pub value : Option ℕ
  pub level : Option Text
  pub display : Text
  pub idle_spin : Option Spin

abbrev pub Metrics : Type 0
Metrics = JsMap Text Metric

unfoldable pub cards_from : ℕ → List Reading → List Card
cards_from pos [] = []
cards_from pos (g ∷ gs) =
    record { i = get_or g.idx pos; util = g.util; mclk = g.mclk; mem = g.mem }
    ∷ cards_from (pos + 1) gs

unfoldable pub card_before : Card → Card → Bool
card_before a b = ltb a.i b.i

unfoldable pub cards_of : List Reading → List Card
cards_of gs = sorted card_before (cards_from 0 gs)

unfoldable pub has_memory : Card → Bool
has_memory c = is_some c.mclk || is_some c.mem

-- c.mclk != null ? c.mclk < MCLK_MAX_MHZ : c.mem <= MEM_BUSY_MAX
unfoldable pub is_mem_idle : Card → Bool
is_mem_idle c = elim c.mclk [
  | some m ↦ ltb m mclk_max_mhz
  | none ↦ leb (get_or c.mem 0) mem_busy_max
]

unfoldable pub is_fresh : Node → ℕ → Bool
is_fresh n now = elim n.at [ none ↦ false | some t ↦ n.reachable && leb now (t + live_max_age_ms) ]

unfoldable pub is_idle : Node → ℕ → Bool
is_idle n now = is_fresh n now && nat_beq n.running 0 && nat_beq n.queued 0

unfoldable pub is_quiet : Node → ℕ → Bool
is_quiet n now = leb (get_or n.last_at 0 + quiet_ms) now

unfoldable pub is_active : Node → List Card → ℕ → ℕ → Bool
is_active n cards busy now =
    is_idle n now && is_quiet n now && leb busy_min busy && all is_mem_idle cards

abbrev pub cool : Text
cool = codes "cool"

abbrev pub card_key : Card → Text
card_key c = codes "gpu" ++ decimal c.i

-- The level of each card's metric that is there.
unfoldable pub cool_cards : Metrics → List Card → Metrics
cool_cards m [] = m
cool_cards m (c ∷ cs) = elim (get m (card_key c)) [
  | none ↦ cool_cards m cs
  | some g ↦ cool_cards (set m (card_key c) (record g { level = some cool })) cs
]

unfoldable pub flag_metric : Bool → Metric
flag_metric true = record { value = some 1; level = none; display = codes "1"; idle_spin = none }
flag_metric false = record { value = some 0; level = none; display = codes "0"; idle_spin = none }

unfoldable pub mark_spin : Metrics → Metric → List Card → ℕ → Metrics
mark_spin m g cards busy =
    let power : Option ℕ = elim (get m (codes "gpu_power")) [ none ↦ none | some p ↦ p.value ] in
    cool_cards
      (set m (codes "gpu") (record g {
        level = some cool;
        idle_spin = some (record { busy = busy; cards = cards; power = power });
      }))
      cards

unfoldable pub judge : Metrics → Node → List Card → Metric → ℕ → ℕ → Metrics × Option Bool
judge m n cards g busy now =
    let active = is_active n cards busy now in
    let m' = set m (codes "idle_spin") (flag_metric active) in
    if active then (mark_spin m' g cards busy, some true) else (m', some false)

unfoldable pub judge_gpu : Metrics → Node → List Card → ℕ → Option Metric → Metrics × Option Bool
judge_gpu m n cards now none = (m, none)
judge_gpu m n cards now (some g) = elim g.value [
  | none ↦ (m, none)
  | some busy ↦ judge m n cards g busy now
]

unfoldable pub judge_cards : Metrics → Node → List Card → ℕ → Metrics × Option Bool
judge_cards m n cards now =
    if ltb (length cards) 2 || not (all has_memory cards)
    then (m, none)
    else judge_gpu m n cards now (get m (codes "gpu"))

-- applyIdleSpin: the metrics after it, and its answer
unfoldable pub apply_idle_spin : List Reading → Metrics → Option Node → ℕ → Metrics × Option Bool
apply_idle_spin gpus m none now = (m, none)
apply_idle_spin gpus m (some n) now =
    if n.strata then judge_cards m n (cards_of gpus) now else (m, none)
