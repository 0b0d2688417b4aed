-- ===== src/Snapshot/Spells.antt =====
-- A target over time: its online and offline spells (update of server/store/snapshot.js).
use home_net_hub.Prelude.{
  ℕ, ◌≡◌, refl, sym, ap, ◌∙◌, subst, true, false, Option, none, some, List, [], ◌∷◌, arith,
  if◌then◌else◌, all, get_or, All, nat_eq, string_eq, list_eq, option_eq,
}
use home_net_hub.Text.{Text}
use home_net_hub.JsMap.{JsMap, get, get-set_self}
use home_net_hub.Snapshot.{
  Entry, Report, update, next_entry, online_entry, offline_entry, since_online, since_offline,
  last_at, last_metrics,
}

module _ {M X : Type 0} (empty : M) where
  -- Reports of one target, the latest first.
  abbrev pub after_reports :
      JsMap Text (Entry M X) → Text → List (Report M X × ℕ) → JsMap Text (Entry M X)
  after_reports m target [] = m
  after_reports m target ((r, t) ∷ earlier) =
      update empty (after_reports m target earlier) target r t

  abbrev pub AllFailed : List (Report M X × ℕ) → Type 0
  AllFailed rs = All (λ p. p.0.online ≡ false) rs

  abbrev pub AllWorked : List (Report M X × ℕ) → Type 0
  AllWorked rs = All (λ p. p.0.online ≡ true) rs

  -- What a target shows during an offline spell that began at `t0` after the entry `e`.
  pub record IsDown (e : Entry M X) (t0 : ℕ) (d : Entry M X) : Type 0 where
    pub online : d.online ≡ false
    pub stale : d.stale ≡ true
    pub metrics : d.metrics ≡ e.metrics
    pub at : d.at ≡ e.at
    pub since : d.since ≡ some t0

  next_entry-offline :
      (prev : Option (Entry M X)) (r : Report M X) (t : ℕ)
      → r.online ≡ false
      → next_entry empty prev r t ≡ offline_entry empty prev r t
  unfolding next_entry
  next_entry-offline prev r t h =
      ap (λ b. if b then online_entry empty prev r t else offline_entry empty prev r t) h

  next_entry-online :
      (prev : Option (Entry M X)) (r : Report M X) (t : ℕ)
      → r.online ≡ true
      → next_entry empty prev r t ≡ online_entry empty prev r t
  unfolding next_entry
  next_entry-online prev r t h =
      ap (λ b. if b then online_entry empty prev r t else offline_entry empty prev r t) h

  since_down :
      (d : Entry M X) (t0 t : ℕ)
      → d.online ≡ false
      → d.since ≡ some t0
      → since_offline {M = M} {X = X} empty (some d) t ≡ t0
  unfolding since_offline
  since_down d t0 t o s = ground (arith, o, ap (λ x. get_or x t) s)

  since_up :
      (d : Entry M X) (t0 t : ℕ)
      → d.online ≡ true
      → d.since ≡ some t0
      → since_online {M = M} {X = X} empty (some d) t ≡ t0
  unfolding since_online
  since_up d t0 t o s = ground (arith, o, ap (λ x. get_or x t) s)

  since_first :
      (d : Entry M X) (t : ℕ) → d.online ≡ true → since_offline {M = M} {X = X} empty (some d) t ≡ t
  unfolding since_offline
  since_first d t o = ground (arith, o)

  offline-IsDown :
      (e d : Entry M X) (t0 : ℕ) (r : Report M X) (t : ℕ)
      → r.online ≡ false
      → IsDown e t0 d
      → IsDown e t0 (next_entry empty (some d) r t)
  unfolding offline_entry last_at last_metrics
  offline-IsDown e d t0 r t h down =
      subst (IsDown e t0) (sym (next_entry-offline (some d) r t h)) (record {
        online = refl;
        stale = refl;
        metrics = down.metrics;
        at = down.at;
        since = ap some (since_down d t0 t down.online down.since);
      })

  first-IsDown :
      (e : Entry M X) (r : Report M X) (t0 : ℕ)
      → r.online ≡ false
      → e.online ≡ true
      → IsDown e t0 (next_entry empty (some e) r t0)
  unfolding offline_entry last_at last_metrics
  first-IsDown e r t0 h up =
      subst (IsDown e t0) (sym (next_entry-offline (some e) r t0 h)) (record {
        online = refl;
        stale = refl;
        metrics = refl;
        at = refl;
        since = ap some (since_first e t0 up);
      })

  get-update :
      (m : JsMap Text (Entry M X)) (target : Text) (r : Report M X) (t : ℕ) (d : Entry M X)
      → get m target ≡ some d
      → get (update empty m target r t) target ≡ some (next_entry empty (some d) r t)
  unfolding update
  get-update m target r t d h = get-set_self m target _ ∙ ap (λ o. some (next_entry empty o r t)) h

  -- While a target that was online cannot be reached, it shows the metrics of its last good report
  -- and when that was, marked stale and offline, and says that it has been down since the first
  -- failure of the spell: failures never zero a metric nor move the start.
  pub update-offline :
      (m : JsMap Text (Entry M X)) (target : Text) (e : Entry M X) (first : Report M X) (t0 : ℕ)
      (later : List (Report M X × ℕ))
      → get m target ≡ some e
      → e.online ≡ true
      → first.online ≡ false
      → AllFailed later
      → (d : Entry M X) × (get (after_reports (update empty m target first t0) target later) target
          ≡ some d)
        × IsDown e t0 d
  update-offline m target e first t0 [] h up failed all = (
    next_entry empty (some e) first t0,
    get-update m target first t0 e h,
    first-IsDown e first t0 failed up,
  )
  update-offline m target e first t0 (p ∷ later) h up failed all =
      let (d, there, down) = update-offline m target e first t0 later h up failed all.1 in
      (
        next_entry empty (some d) p.0 p.1,
        get-update (after_reports (update empty m target first t0) target later) target p.0 p.1 d
            there,
        offline-IsDown e d t0 p.0 p.1 all.0 down,
      )

  -- What a target shows during an online spell that began at `t0`.
  pub record IsUp (t0 t : ℕ) (r : Report M X) (d : Entry M X) : Type 0 where
    pub online : d.online ≡ true
    pub stale : d.stale ≡ false
    pub at : d.at ≡ some t
    pub since : d.since ≡ some t0
    pub metrics : d.metrics ≡ get_or r.metrics empty
    pub error : d.error ≡ none

  since_wakes :
      (d : Entry M X) (t : ℕ) → d.online ≡ false → since_online {M = M} {X = X} empty (some d) t ≡ t
  unfolding since_online
  since_wakes d t o = ground (arith, o)

  online-IsUp :
      (d : Entry M X) (t0 t : ℕ) (r : Report M X)
      → r.online ≡ true
      → since_online {M = M} {X = X} empty (some d) t ≡ t0
      → IsUp t0 t r (next_entry empty (some d) r t)
  unfolding online_entry
  online-IsUp d t0 t r up s =
      subst (IsUp t0 t r) (sym (next_entry-online (some d) r t up)) (record {
        online = refl;
        stale = refl;
        at = refl;
        since = ap some s;
        metrics = refl;
        error = refl;
      })

  -- The first good report after a failure begins an online spell at its own time, and clears the
  -- error; a further one shows its metrics at its time and keeps the start.
  pub update-online :
      (m : JsMap Text (Entry M X)) (target : Text) (e : Entry M X) (r r' : Report M X) (t t' : ℕ)
      → get m target ≡ some e
      → e.online ≡ false
      → r.online ≡ true
      → r'.online ≡ true
      → (d : Entry M X) × (d' : Entry M X) × (get (update empty m target r t) target ≡ some d)
        × (get (update empty (update empty m target r t) target r' t') target ≡ some d')
        × IsUp t t r d
        × IsUp t t' r' d'
  update-online m target e r r' t t' h down up up' =
      let d = next_entry empty (some e) r t in
      let there = get-update m target r t e h in
      let first = online-IsUp e t t r up (since_wakes e t down) in
      (
        d,
        next_entry empty (some d) r' t',
        there,
        get-update (update empty m target r t) target r' t' d there,
        first,
        online-IsUp d t t' r' up' (since_up d t t' first.online first.since),
      )
