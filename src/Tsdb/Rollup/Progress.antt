-- ===== src/Tsdb/Rollup/Progress.antt =====
-- How far a run of the rollup of server/store/sqlite.js gets, and how much it may take.
use home_net_hub.Prelude.{
  ℕ, zero, suc, ◌+◌, ◌-◌, ◌*◌, ◌≤◌, min, ◌≡◌, refl, sym, ap, subst, inl, inr, Bool, true, false,
  Option, none, some, List, arith, leb, nat_beq, if◌then◌else◌, Option-cases, if-elim, if_some,
  map_option, map_option-some, nat_eq, string_eq, list_eq, option_eq, pair_eq,
}
use home_net_hub.JsMap.{get-select, get}
use home_net_hub.Tsdb.Tiers.{Series, agg_chunk, purge_chunk}
use home_net_hub.Tsdb.Rollup.{
  Retention, chunks_taken, purges_taken, Tiered, Run, Phase, dropping, aggregating, purging, failed,
  drain, chunk_sec, max_chunks_per_run, agg_mark, purge_mark, drop_turn, dropped, drop_phase,
  agg_turn, aggregated, agg_phase, purge_turn, purged, purge_phase, purge_rest, run_phases,
  rollup_chunks, rollup, idle_run, release, finish, seed, agg_target, purge_target, floor_ts,
  sweep_buckets, cleanup_cutoff, cleanup,
}
use home_net_hub.Tsdb.Rollup.Loop.{drain-cases, drain-Keeps, drain-taken, drain-fuel}

module _ {V : Type 0} (mark : Tiered V → ℕ) (taken : Run V → ℕ)
    (turn : Run V → ℕ → ℕ → Option (Run V)) where
  -- A loop whose last transaction did not fail takes all its chunks or reaches its target.
  drain-mark :
      ((r r' : Run V) (lo hi : ℕ)
        → turn r lo hi ≡ some r'
        → (taken r' ≡ taken r + 1) × (mark r'.db ≡ hi))
      → (n target : ℕ) (r : Run V) → max_chunks_per_run ≤ taken r + n
      → (drain mark taken turn n target r).db.fails ≡ 0
      → min (mark r.db + (max_chunks_per_run - taken r) * chunk_sec) target
        ≤ mark (drain mark taken turn n target r).db
  unfolding drain failed
  drain-mark moves zero target r enough ok = ground (arith, enough)
  drain-mark moves (suc n) target r enough ok =
      drain-cases mark taken turn
        (λ (x : Run V).
          x.db.fails ≡ 0
          → min (mark r.db + (max_chunks_per_run - taken r) * chunk_sec) target ≤ mark x.db)
        n target r (λ at ok. ground (arith, at)) (λ full ok. ground (arith, full))
        (λ lt gone ok. absurd (ground (arith, ok)))
        (λ r' lt room took ok.
          let (one, m) = moves r r' (mark r.db) (min (mark r.db + chunk_sec) target) took in
          let ih = drain-mark moves n target r' (ground (arith, enough, one)) ok in
          ground (arith, m, ih, one))
        ok

module _ {V : Type 0} (commits : Phase → ℕ → ℕ → Bool) where
  drop_turn-chunks :
      (r r' : Run V) (lo hi : ℕ)
      → drop_turn commits r lo hi ≡ some r'
      → (r'.chunks ≡ r.chunks + 1) × (r'.pchunks ≡ r.pchunks)
  unfolding drop_turn dropped
  drop_turn-chunks r r' lo hi h =
      let (_, e) = if_some (commits dropping lo hi) (some (dropped r lo hi)) r' h in
      let q : dropped r lo hi ≡ r' = cc e in
      (sym (ap (λ (x : Run V). x.chunks) q), sym (ap (λ (x : Run V). x.pchunks) q))

module _ {V : Type 0} (less : V → V → Bool) (average : List V → V)
    (commits : Phase → ℕ → ℕ → Bool) where
  agg_turn-chunks :
      (r r' : Run V) (lo hi : ℕ)
      → agg_turn less average commits r lo hi ≡ some r'
      → (r'.chunks ≡ r.chunks + 1) × (r'.pchunks ≡ r.pchunks) × (r'.db.agg_wm ≡ hi)
  unfolding agg_turn aggregated
  agg_turn-chunks r r' lo hi h =
      let chunk = agg_chunk less average r.db.tables lo hi in
      let (_, e) =
        if_some (commits aggregating lo hi) (map_option (aggregated r lo hi) chunk) r' h in
      let (after, _, q) = map_option-some (aggregated r lo hi) chunk r' e in
      (
        sym (ap (λ (x : Run V). x.chunks) q),
        sym (ap (λ (x : Run V). x.pchunks) q),
        sym (ap (λ (x : Run V). x.db.agg_wm) q),
      )

  purge_turn-chunks :
      (r r' : Run V) (lo hi : ℕ)
      → purge_turn less average commits r lo hi ≡ some r'
      → (r'.pchunks ≡ r.pchunks + 1) × (r'.chunks ≡ r.chunks)
  unfolding purge_turn purged
  purge_turn-chunks r r' lo hi h =
      let chunk = purge_chunk less average r.db.tables lo hi in
      let (_, e) = if_some (commits purging lo hi) (map_option (purged r lo hi) chunk) r' h in
      let (after, _, q) = map_option-some (purged r lo hi) chunk r' e in
      (sym (ap (λ (x : Run V). x.pchunks) q), sym (ap (λ (x : Run V). x.chunks) q))

  -- The two counters of a run, before they are added up.
  abbrev CountsWithin : ℕ → Run V → Type 0
  CountsWithin p r = (r.chunks ≤ max_chunks_per_run) × (r.pchunks ≤ p)

  drop_phase-CountsWithin :
      (floor : ℕ) (r : Run V) → CountsWithin 0 r → CountsWithin 0 (drop_phase commits floor r)
  unfolding drop_phase failed
  drop_phase-CountsWithin floor r h = (
    drain-taken purge_mark chunks_taken (drop_turn commits)
        (λ x x' lo hi e. (drop_turn-chunks commits x x' lo hi e).0) (λ x. refl) max_chunks_per_run
        floor r h.0,
    drain-Keeps purge_mark chunks_taken (drop_turn commits) (λ (x : Run V). x.pchunks ≤ 0) floor
        (λ x x' le lt e.
          let same = (drop_turn-chunks commits x x' _ _ e).1 in ground (arith, le, same))
        (λ x le. le) max_chunks_per_run r h.1,
  )

  agg_phase-CountsWithin :
      (target : ℕ) (r : Run V)
      → CountsWithin 0 r
      → CountsWithin 0 (agg_phase less average commits target r)
  unfolding agg_phase failed
  agg_phase-CountsWithin target r h = (
    drain-taken agg_mark chunks_taken (agg_turn less average commits)
        (λ x x' lo hi e. (agg_turn-chunks x x' lo hi e).0) (λ x. refl) max_chunks_per_run target r
        h.0,
    drain-Keeps agg_mark chunks_taken (agg_turn less average commits) (λ (x : Run V). x.pchunks ≤ 0)
        target
        (λ x x' le lt e. let same = (agg_turn-chunks x x' _ _ e).1 in ground (arith, le, same))
        (λ x le. le) max_chunks_per_run r h.1,
  )

  purge_phase-CountsWithin :
      (limit : ℕ) (r : Run V)
      → CountsWithin 0 r
      → CountsWithin max_chunks_per_run (purge_phase less average commits limit r)
  unfolding purge_phase failed
  purge_phase-CountsWithin limit r h = (
    drain-Keeps purge_mark purges_taken (purge_turn less average commits)
        (λ (x : Run V). x.chunks ≤ max_chunks_per_run) limit
        (λ x x' le lt e. let same = (purge_turn-chunks x x' _ _ e).1 in ground (arith, le, same))
        (λ x le. le) max_chunks_per_run r h.0,
    drain-taken purge_mark purges_taken (purge_turn less average commits)
        (λ x x' lo hi e. (purge_turn-chunks x x' lo hi e).0) (λ x. refl) max_chunks_per_run limit r
        (let none_yet = h.1 in ground (arith, none_yet)),
  )

  -- What a run reports: so many chunks dropped or aggregated, and the others purged.
  abbrev pub IsCounted : Run V → Type 0
  IsCounted r =
      (r.pchunks ≤ max_chunks_per_run)
      × ((others : ℕ) × (r.chunks ≡ others + r.pchunks) × (others ≤ max_chunks_per_run))

  run_phases-IsCounted :
      (s : Retention) (db : Tiered V) (now : ℕ)
      → IsCounted (run_phases less average commits s now db)
  unfolding run_phases purge_rest finish idle_run
  run_phases-IsCounted s db now =
      let d = drop_phase commits (floor_ts s now) (idle_run db false) in
      let a = agg_phase less average commits (agg_target s now) d in
      let p = purge_phase less average commits (min (purge_target s now) a.db.agg_wm) a in
      let (others, purges) = purge_phase-CountsWithin (min (purge_target s now) a.db.agg_wm) a (
        agg_phase-CountsWithin (agg_target s now) d (
          drop_phase-CountsWithin (floor_ts s now) (idle_run db false)
            (ground arith, ground arith))) in
      (purges, (p.chunks, refl, others))

  -- The number of chunks that a run reports is bounded: at most 24 are dropped or aggregated, and at
  -- most 24 others are purged.
  pub rollup-chunks :
      (s : Retention) (db : Tiered V) (now : ℕ) → IsCounted (rollup less average commits s db now)
  unfolding rollup rollup_chunks release idle_run
  rollup-chunks s db now =
      let started : Tiered V = record db { busy = true } in
      let body : Option (Tiered V) → Run V = λ o. elim o [
        | none ↦ idle_run started true
        | some seeded ↦ run_phases less average commits s now seeded
      ] in
      let idle : IsCounted (idle_run db false) = (ground arith, (0, refl, ground arith)) in
      if-elim IsCounted db.busy (idle_run db false) (release (body (seed started))) (λ _. idle)
        (λ _. elim (Option-cases (seed started)) [
          | inl e ↦ subst (λ o. IsCounted (body o)) (sym e) idle
          | inr (seeded, e) ↦
              subst (λ o. IsCounted (body o)) (sym e) (run_phases-IsCounted s seeded now)
        ])

  -- The loops of the three phases end of themselves, at their target, with their chunks taken or at a
  -- failure: with fuel for 24 turns or for any more they give the same.
  pub phases-fuel :
      (fuel floor target limit : ℕ) (r : Run V)
      → max_chunks_per_run ≤ fuel
      → (drain purge_mark chunks_taken (drop_turn commits) fuel floor r
          ≡ drop_phase commits floor r)
        × (drain agg_mark chunks_taken (agg_turn less average commits) fuel target r
            ≡ agg_phase less average commits target r)
        × (drain purge_mark purges_taken (purge_turn less average commits) fuel limit r
            ≡ purge_phase less average commits limit r)
  unfolding drop_phase agg_phase purge_phase
  phases-fuel fuel floor target limit r le = (
    drain-fuel purge_mark chunks_taken (drop_turn commits)
        (λ x x' lo hi e. (drop_turn-chunks commits x x' lo hi e).0) max_chunks_per_run fuel floor r
        (ground arith) le,
    drain-fuel agg_mark chunks_taken (agg_turn less average commits)
        (λ x x' lo hi e. (agg_turn-chunks x x' lo hi e).0) max_chunks_per_run fuel target r
        (ground arith) le,
    drain-fuel purge_mark purges_taken (purge_turn less average commits)
        (λ x x' lo hi e. (purge_turn-chunks x x' lo hi e).0) max_chunks_per_run fuel limit r
        (ground arith) le,
  )

  -- The aggregation, unless its last transaction failed, takes all the chunks that the run has left
  -- or reaches its target.
  pub agg_phase-agg_wm :
      (r : Run V) (target : ℕ)
      → (agg_phase less average commits target r).db.fails ≡ 0
      → min (r.db.agg_wm + (max_chunks_per_run - r.chunks) * chunk_sec) target
        ≤ (agg_phase less average commits target r).db.agg_wm
  unfolding agg_phase
  agg_phase-agg_wm r target ok =
      drain-mark agg_mark chunks_taken (agg_turn less average commits)
        (λ x x' lo hi h. let (one, _, at) = agg_turn-chunks x x' lo hi h in (one, at))
        max_chunks_per_run target r (ground arith) ok

module _ {V : Type 0} where
  -- The sweep takes no bucket at or above the purge mark, nor one of the days of retention: only buckets
  -- below both are gone.
  pub cleanup-get :
      (s : Retention) (db : Tiered V) (now t : ℕ) (k : Series)
      → get (cleanup s db now).tables.agg (k, t)
        ≡ (if leb (cleanup_cutoff s db now) t then get db.tables.agg (k, t) else none)
  unfolding cleanup sweep_buckets
  cleanup-get s db now t k =
      let cutoff = cleanup_cutoff s db now in
      let swept = get-select (λ (b : Series × ℕ). leb cutoff b.1) db.tables.agg (k, t) in
      let P : Tiered V → Type 0 =
        λ x. get x.tables.agg (k, t) ≡ (if leb cutoff t then get db.tables.agg (k, t) else none) in
      if-elim P (nat_beq cutoff 0) db
        (record db { tables = record db.tables { agg = sweep_buckets db.tables.agg cutoff } })
        (λ b. ground (arith, b)) (λ _. swept)
