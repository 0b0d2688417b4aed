-- ===== src/IdleSpin/Examples.antt =====
-- server/idle_spin.js with two busy cards, and its theorem there.
use home_net_hub.Prelude.{
  ℕ, ◌≡◌, refl, ◌≢◌, true, none, some, [], ◌∷◌, nat_eq, string_eq, list_eq, option_eq, pair_eq,
}
use home_net_hub.Text.{codes}
use home_net_hub.JsMap.{get}
use home_net_hub.UserStore.{sorted, insert_sorted}
use home_net_hub.IdleSpin.{
  Reading, Node, Metrics, apply_idle_spin, judge_cards, judge_gpu, judge, is_active, is_idle,
  is_fresh, is_quiet, is_mem_idle, has_memory, cards_of, cards_from, card_before,
}
use home_net_hub.IdleSpin.Judged.{Outcome, apply_idle_spin-Outcome}

abbrev reading : ℕ → Reading
reading i = record { idx = some i; util = some 100; mclk = some 96; mem = none }

abbrev busy_gpu : Metrics
busy_gpu =
    (
      codes "gpu",
      record {
        value = some 100;
        level = some (codes "hot");
        display = codes "100";
        idle_spin = none;
      },
    )
    ∷ []

abbrev strata : Node
strata = record {
  strata = true;
  reachable = true;
  at = some 50000;
  running = 0;
  queued = 0;
  last_at = some 30000;
}

spins : (apply_idle_spin (reading 1 ∷ reading 0 ∷ []) busy_gpu (some strata) 51000).1 ≡ some true
unfolding apply_idle_spin judge_cards judge_gpu judge is_active is_idle is_fresh is_quiet
    is_mem_idle has_memory cards_of cards_from card_before sorted insert_sorted get
spins = refl

gpu_differs : codes "idle_spin" ≢ codes "gpu"
gpu_differs e = absurd (cc e)

apply_idle_spin-Outcome_example :
    Outcome
      (reading 1 ∷ reading 0 ∷ [])
      busy_gpu
      (some strata)
      51000
      (codes "gpu")
      gpu_differs
      (apply_idle_spin (reading 1 ∷ reading 0 ∷ []) busy_gpu (some strata) 51000)
apply_idle_spin-Outcome_example =
    apply_idle_spin-Outcome (reading 1 ∷ reading 0 ∷ []) busy_gpu (some strata) 51000 (codes "gpu")
      gpu_differs
