-- ===== src/Tsdb/Rollup/Starts.antt =====
-- Where the rollup of server/store/sqlite.js starts: at or below its oldest row, while nothing is purged.
use home_net_hub.Prelude.{
  ℕ, ◌≤◌, ◌<◌, min, ◌≡◌, sym, ap, ◌∙◌, subst, inl, inr, Bool, false, ◌||◌, Option, none, some, List,
  [], ◌∷◌, arith, nat_beq, if◌then◌else◌, Bool-cases, Option-cases, if_some, map_option,
  map_option-some, nat_eq, string_eq, list_eq, option_eq, pair_eq,
}
use home_net_hub.Tsdb.Tiers.{
  Series, Tables, all_series, agg_series, agg_chunk, insert_rollup, verify, purge_chunk, raw_count,
  agg_count,
}
use home_net_hub.Tsdb.Rollup.{
  Retention, Tiered, Run, Phase, dropping, aggregating, purging, align, oldest, seed_at, seed,
  failed, max_chunks_per_run, agg_mark, purge_mark, chunks_taken, purges_taken, drop_turn, dropped,
  drop_phase, agg_turn, aggregated, agg_phase, purge_turn, purged, purge_phase, purge_rest,
  run_phases, idle_run, finish, agg_target, purge_target, floor_ts,
}
use home_net_hub.Tsdb.Rollup.Loop.{drain-Keeps}
use home_net_hub.Tsdb.Rollup.Marks.{StartsBelow}

module _ {V : Type 0} where
  -- While nothing is purged, the oldest row is not above the aggregation mark.
  abbrev pub NotAbove : Tiered V → Type 0
  NotAbove db = (t : ℕ) → oldest db.tables.raw ≡ some t → db.purge_wm ≡ 0 → align t ≤ db.agg_wm

  seed_at-NotAbove :
      (db : Tiered V) (t : ℕ)
      → oldest db.tables.raw ≡ some t
      → StartsBelow db
      → NotAbove (seed_at db t)
  unfolding seed_at
  seed_at-NotAbove db t row below u e none_purged =
      let same : t ≡ u = cc (row, e) in
      let up : align u ≡ align t = ap align (sym same) in
      elim (Bool-cases (nat_beq db.agg_wm 0)) [
        | inl b ↦ ground (arith, b, up)
        | inr b ↦ elim (Bool-cases (nat_beq db.purge_wm 0)) [
          | inl p ↦
              let low = below u e (ground (arith, p)) (ground (arith, b)) in ground (arith, b, low)
          | inr p ↦ absurd (ground (arith, none_purged, p))
        ]
      ]

  pub seed-NotAbove :
      (db seeded : Tiered V) → seed db ≡ some seeded → StartsBelow db → NotAbove seeded
  unfolding seed
  seed-NotAbove db seeded h below =
      let fresh = nat_beq db.agg_wm 0 || nat_beq db.purge_wm 0 in
      let rows = map_option (seed_at db) (oldest db.tables.raw) in
      elim (Bool-cases fresh) [
        | inl b ↦
            let (t, row, q) =
              map_option-some (seed_at db) (oldest db.tables.raw) seeded
                (sym (ap (λ x. if x then rows else some db) b) ∙ h) in
            subst NotAbove q (seed_at-NotAbove db t row below)
        | inr b ↦
            let as_is : some db ≡ some seeded = sym (ap (λ x. if x then rows else some db) b) ∙ h in
            let q : db ≡ seeded = cc as_is in
            subst NotAbove q (λ t e p. absurd (ground (arith, p, b)))
      ]

module _ {V : Type 0} (less : V → V → Bool) (average : List V → V) where
  verify_same :
      (db db' : Tables V) (k : Series) (lo hi : ℕ)
      → verify less average db k lo hi ≡ some db'
      → db ≡ db'
  unfolding verify
  verify_same db db' k lo hi h =
      let (_, e) =
        if_some (nat_beq (raw_count db.raw k lo hi) (agg_count db.agg k lo hi)) (some db) db' h in
      cc e

  agg_series-raw :
      (db db' : Tables V) (ks : List Series) (lo hi : ℕ)
      → agg_series less average db ks lo hi ≡ some db'
      → db'.raw ≡ db.raw
  unfolding agg_series insert_rollup
  agg_series-raw db db' [] lo hi h = let q : db ≡ db' = cc h in ap (λ (x : Tables V). x.raw) (sym q)
  agg_series-raw db db' (k ∷ ks) lo hi h =
      let put = insert_rollup less average db k lo hi in
      let body : Option (Tables V) → Option (Tables V) =
        λ o. elim o [ none ↦ none | some x ↦ agg_series less average x ks lo hi ] in
      elim (Option-cases (verify less average put k lo hi)) [
        | inl e ↦ absurd (cc (sym (ap body e) ∙ h))
        | inr (x, e) ↦
            let q : put ≡ x = verify_same put x k lo hi e in
            agg_series-raw x db' ks lo hi (sym (ap body e) ∙ h)
            ∙ ap (λ (y : Tables V). y.raw) (sym q)
      ]

  agg_chunk-raw :
      (db db' : Tables V) (lo hi : ℕ)
      → agg_chunk less average db lo hi ≡ some db'
      → db'.raw ≡ db.raw
  unfolding agg_chunk
  agg_chunk-raw db db' lo hi h = agg_series-raw db db' (all_series db.raw) lo hi h

module _ {V : Type 0} (less : V → V → Bool) (average : List V → V)
    (commits : Phase → ℕ → ℕ → Bool) where
  drop_turn-NotAbove :
      (r r' : Run V) (lo hi : ℕ) → 0 < hi → drop_turn commits r lo hi ≡ some r' → NotAbove r'.db
  unfolding drop_turn dropped
  drop_turn-NotAbove r r' lo hi pos h =
      let (_, e) = if_some (commits dropping lo hi) (some (dropped r lo hi)) r' h in
      let q : dropped r lo hi ≡ r' = cc e in
      subst (λ (x : Run V). NotAbove x.db) q (λ t o p. absurd (ground (arith, p, pos)))

  agg_turn-NotAbove :
      (r r' : Run V) (lo hi : ℕ)
      → r.db.agg_wm ≤ hi
      → NotAbove r.db
      → agg_turn less average commits r lo hi ≡ some r'
      → NotAbove r'.db
  unfolding agg_turn aggregated
  agg_turn-NotAbove r r' lo hi le low h =
      let chunk = agg_chunk less average r.db.tables lo hi in
      let (_, e) =
        if_some (commits aggregating lo hi) (map_option (aggregated r lo hi) chunk) r' h in
      let (after, took, q) = map_option-some (aggregated r lo hi) chunk r' e in
      let raw = agg_chunk-raw less average r.db.tables after lo hi took in
      subst (λ (x : Run V). NotAbove x.db) q
        (λ t o p. let l = low t (ap oldest (sym raw) ∙ o) p in ground (arith, l, le))

  purge_turn-NotAbove :
      (r r' : Run V) (lo hi : ℕ)
      → 0 < hi
      → purge_turn less average commits r lo hi ≡ some r'
      → NotAbove r'.db
  unfolding purge_turn purged
  purge_turn-NotAbove r r' lo hi pos h =
      let chunk = purge_chunk less average r.db.tables lo hi in
      let (_, e) = if_some (commits purging lo hi) (map_option (purged r lo hi) chunk) r' h in
      let (after, _, q) = map_option-some (purged r lo hi) chunk r' e in
      subst (λ (x : Run V). NotAbove x.db) q (λ t o p. absurd (ground (arith, p, pos)))

  pub run_phases-StartsBelow :
      (s : Retention) (db : Tiered V) (now : ℕ)
      → NotAbove db
      → StartsBelow (run_phases less average commits s now db).db
  unfolding run_phases purge_rest drop_phase agg_phase purge_phase finish idle_run failed
  run_phases-StartsBelow s db now low =
      let P : Run V → Type 0 = λ r. NotAbove r.db in
      let d = drop_phase commits (floor_ts s now) (idle_run db false) in
      let a = agg_phase less average commits (agg_target s now) d in
      let limit = min (purge_target s now) a.db.agg_wm in
      let one : P d =
        drain-Keeps purge_mark chunks_taken (drop_turn commits) P (floor_ts s now)
          (λ r r' p lt h. drop_turn-NotAbove r r' _ _ (ground (arith, lt)) h) (λ r p. p)
          max_chunks_per_run (idle_run db false) low in
      let two : P a =
        drain-Keeps agg_mark chunks_taken (agg_turn less average commits) P (agg_target s now)
          (λ r r' p lt h. agg_turn-NotAbove r r' _ _ (ground (arith, lt)) p h) (λ r p. p)
          max_chunks_per_run d one in
      let three =
        drain-Keeps purge_mark purges_taken (purge_turn less average commits) P limit
          (λ r r' p lt h. purge_turn-NotAbove r r' _ _ (ground (arith, lt)) h) (λ r p. p)
          max_chunks_per_run a two in
      (λ t o p pos. three t o p)
