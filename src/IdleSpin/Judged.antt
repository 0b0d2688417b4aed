-- ===== src/IdleSpin/Judged.antt =====
-- What server/idle_spin.js decides, and what it leaves as it was.
use home_net_hub.Prelude.{
  ℕ, ◌≤◌, ◌≡◌, refl, sym, ap, ◌∙◌, subst, ◌≢◌, inl, inr, Bool, true, false, not, ◌&&◌, ◌||◌, Option,
  none, some, List, [], ◌∷◌, ltb, leb, if◌then◌else◌, leb→le, not_ltb→le, and_true, or_false,
  Bool-cases, Option-cases, if-elim, map_option, length, all, ◌==◌, beq_refl, beq_true, nat_eq,
  string_eq, list_eq, option_eq, pair_eq,
}
use home_net_hub.Text.{Text, codes}
use home_net_hub.JsMap.{get, set, get-set_self, get-set_ne}
use home_net_hub.IdleSpin.{
  Reading, Card, Node, Metric, Metrics, busy_min, cards_of, has_memory, is_mem_idle, is_idle,
  is_quiet, is_active, cool, card_key, cool_cards, flag_metric, mark_spin, judge, judge_gpu,
  judge_cards, apply_idle_spin,
}

-- The values of two metrics tables agree at a key.
abbrev pub SameValue : Metrics → Metrics → Text → Type 0
SameValue m m' k =
    map_option (λ (x : Metric). x.value) (get m' k) ≡ map_option (λ (x : Metric). x.value) (get m k)

-- Why a machine is said to spin: its node runs Strata, is idle and was for a while, it has two cards
-- or more, all with idle memory, and its GPU reads busy.
pub record IsSpinning (gpus : List Reading) (m : Metrics) (node : Option Node) (now : ℕ)
    : Type 0 where
  pub found : Node
  pub known : node ≡ some found
  pub strata : found.strata ≡ true
  pub idle : is_idle found now ≡ true
  pub quiet : is_quiet found now ≡ true
  pub several : 2 ≤ length (cards_of gpus)
  pub unused : all is_mem_idle (cards_of gpus) ≡ true
  pub gpu : Metric
  pub measured : get m (codes "gpu") ≡ some gpu
  pub busy : ℕ
  pub read : gpu.value ≡ some busy
  pub high : busy_min ≤ busy

-- A metric that is put in the place of one with the same value.
set-value :
    (m : Metrics) (j k : Text) (old new : Metric)
    → get m j ≡ some old
    → new.value ≡ old.value
    → SameValue m (set m j new) k
set-value m j k old new h same = elim (Bool-cases (j == k)) [
  | inl b ↦
      let q : j ≡ k = beq_true j k b in
      ap (map_option (λ (x : Metric). x.value))
        (ap (get (set m j new)) (sym q) ∙ get-set_self m j new)
      ∙ ap some same
      ∙ sym (ap (map_option (λ (x : Metric). x.value)) (ap (get m) (sym q) ∙ h))
  | inr b ↦
      let ne : j ≢ k = λ q. absurd (cc (sym (ap (λ x. j == x) (sym q) ∙ beq_refl j) ∙ b)) in
      ap (map_option (λ (x : Metric). x.value)) (get-set_ne m j k new ne)
]

cool_cards-value : (m : Metrics) (cs : List Card) (k : Text) → SameValue m (cool_cards m cs) k
unfolding cool_cards
cool_cards-value m [] k = refl
cool_cards-value m (c ∷ cs) k =
    let body : Option Metric → Metrics = λ o. elim o [
      | none ↦ cool_cards m cs
      | some g ↦ cool_cards (set m (card_key c) (record g { level = some cool })) cs
    ] in
    elim (Option-cases (get m (card_key c))) [
      | inl e ↦ subst (λ o. SameValue m (body o) k) (sym e) (cool_cards-value m cs k)
      | inr (g, e) ↦
          let cooled : Metric = record g { level = some cool } in
          subst (λ o. SameValue m (body o) k) (sym e)
            (cool_cards-value (set m (card_key c) cooled) cs k
              ∙ set-value m (card_key c) k g cooled e refl)
    ]

module _ (gpus : List Reading) (m : Metrics) (node : Option Node) (now : ℕ) (k : Text)
    (other : codes "idle_spin" ≢ k) where
  abbrev pub Outcome : Metrics × Option Bool → Type 0
  Outcome o = SameValue m o.0 k × (o.1 ≡ some true → IsSpinning gpus m node now)

  judge-Outcome :
      (n : Node) (g : Metric) (busy : ℕ)
      → get m (codes "gpu") ≡ some g
      → g.value ≡ some busy
      → (is_active n (cards_of gpus) busy now ≡ true → IsSpinning gpus m node now)
      → Outcome (judge m n (cards_of gpus) g busy now)
  unfolding judge mark_spin
  judge-Outcome n g busy at read spinning =
      let cards = cards_of gpus in
      let active = is_active n cards busy now in
      let m' = set m (codes "idle_spin") (flag_metric active) in
      let kept : SameValue m m' k =
        ap (map_option (λ (x : Metric). x.value))
          (get-set_ne m (codes "idle_spin") k (flag_metric active) other) in
      let gpu_there : get m' (codes "gpu") ≡ some g =
        get-set_ne m (codes "idle_spin") (codes "gpu") (flag_metric active) (λ e. absurd (cc e))
        ∙ at in
      if-elim Outcome active (mark_spin m' g cards busy, some true) (m', some false)
        (λ b. (
          cool_cards-value _ cards k ∙ set-value m' (codes "gpu") k g _ gpu_there refl ∙ kept,
          λ _. spinning b,
        ))
        (λ _. (kept, λ e. absurd (cc e)))

  judge_value-Outcome :
      (n : Node) (g : Metric) (v : Option ℕ)
      → node ≡ some n
      → n.strata ≡ true
      → 2 ≤ length (cards_of gpus)
      → get m (codes "gpu") ≡ some g
      → g.value ≡ v
      → Outcome (elim v [ none ↦ (m, none) | some busy ↦ judge m n (cards_of gpus) g busy now ])
  unfolding is_active
  judge_value-Outcome n g none known strata several at read = (refl, λ e. absurd (cc e))
  judge_value-Outcome n g (some busy) known strata several at read =
      judge-Outcome n g busy at read (λ h.
        let (first, unused) =
          and_true (is_idle n now && is_quiet n now && leb busy_min busy)
            (all is_mem_idle (cards_of gpus)) h in
        let (still, high) = and_true (is_idle n now && is_quiet n now) (leb busy_min busy) first in
        let (idle, quiet) = and_true (is_idle n now) (is_quiet n now) still in
        record {
          found = n;
          known = known;
          strata = strata;
          idle = idle;
          quiet = quiet;
          several = several;
          unused = unused;
          gpu = g;
          measured = at;
          busy = busy;
          read = read;
          high = leb→le busy_min busy high;
        })

  judge_gpu-Outcome :
      (n : Node) (o : Option Metric)
      → node ≡ some n
      → n.strata ≡ true
      → 2 ≤ length (cards_of gpus)
      → get m (codes "gpu") ≡ o
      → Outcome (judge_gpu m n (cards_of gpus) now o)
  unfolding judge_gpu
  judge_gpu-Outcome n none known strata several at = (refl, λ e. absurd (cc e))
  judge_gpu-Outcome n (some g) known strata several at =
      judge_value-Outcome n g g.value known strata several at refl

  node-Outcome : (o : Option Node) → node ≡ o → Outcome (apply_idle_spin gpus m o now)
  unfolding apply_idle_spin judge_cards
  node-Outcome none known = (refl, λ e. absurd (cc e))
  node-Outcome (some n) known =
      let cards = cards_of gpus in
      let few = ltb (length cards) 2 || not (all has_memory cards) in
      if-elim Outcome n.strata
        (if few then (m, none) else judge_gpu m n cards now (get m (codes "gpu"))) (m, none)
        (λ s.
          if-elim Outcome few (m, none) (judge_gpu m n cards now (get m (codes "gpu")))
            (λ _. (refl, λ e. absurd (cc e)))
            (λ b.
              let two = (or_false (ltb (length cards) 2) (not (all has_memory cards)) b).0 in
              judge_gpu-Outcome n (get m (codes "gpu")) known s (not_ltb→le (length cards) 2 two)
                refl))
        (λ _. (refl, λ e. absurd (cc e)))

  -- Judging a machine changes the value of no metric but idle_spin, so that what the timeseries takes
  -- is what was measured; and a machine is said to spin only if its node runs Strata, is idle and has
  -- been for ten seconds, it has two cards or more, all with idle memory, and its GPU reads busy.
  pub apply_idle_spin-Outcome : Outcome (apply_idle_spin gpus m node now)
  apply_idle_spin-Outcome = node-Outcome node refl
