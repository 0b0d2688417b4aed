-- ===== src/Tsdb/Rollup/Ordered.antt =====
-- The rollup of server/store/sqlite.js keeps its watermarks in order.
use home_net_hub.Prelude.{
  ℕ, ◌+◌, ◌≤◌, ◌<◌, min, ◌≡◌, refl, sym, ap, ◌∙◌, subst, inl, inr, Bool, true, false, ◌||◌, Option,
  none, some, List, arith, ltb, nat_beq, if◌then◌else◌, not_ltb→le, Bool-cases, Option-cases,
  if-elim, if_some, map_option, map_option-some, nat_eq, string_eq, list_eq, option_eq, pair_eq,
}
use home_net_hub.Tsdb.Tiers.{agg_chunk, purge_chunk}
use home_net_hub.Tsdb.Rollup.{
  Retention, chunks_taken, purges_taken, Tiered, Run, Phase, dropping, aggregating, purging, later,
  oldest, seed_at, seed, failed, chunk_sec, max_chunks_per_run, agg_mark, purge_mark, drop_turn,
  dropped, drop_phase, agg_turn, aggregated, agg_phase, purge_turn, purged, purge_phase, purge_rest,
  run_phases, rollup_chunks, rollup, idle_run, release, finish, agg_target, purge_target, floor_ts,
}
use home_net_hub.Tsdb.Rollup.Loop.{drain-Keeps}
use home_net_hub.Tsdb.Rollup.Starts.{run_phases-StartsBelow, seed-NotAbove}
use home_net_hub.Tsdb.Rollup.Marks.{
  IsAligned, IsMarked, StartsBelow, align-IsAligned, min-IsAligned, chunk_end-IsAligned,
  failed-IsMarked, seed_at-IsMarked,
}

module _ {V : Type 0} where
  -- A dropped chunk starts at the purge mark; the aggregation mark is taken along.
  dropped-IsMarked :
      (r : Run V) (hi : ℕ)
      → IsAligned hi
      → IsMarked r.db
      → r.db.purge_wm < hi
      → IsMarked (dropped r r.db.purge_wm hi).db
  unfolding dropped later
  dropped-IsMarked r hi al m lt = elim (Bool-cases (ltb r.db.agg_wm hi)) [
    | inl b ↦ rw (b) (record {
      agg_aligned = al;
      purge_aligned = al;
      ordered = ground arith;
      agg_saved = inr (refl, ground (arith, lt));
      purge_saved = inr (refl, ground (arith, lt));
      unsaved = λ e. absurd (cc e);
    })
    | inr b ↦
        let le : hi ≤ r.db.agg_wm = not_ltb→le r.db.agg_wm hi b in
        rw (b) (record {
          agg_aligned = m.agg_aligned;
          purge_aligned = al;
          ordered = le;
          agg_saved = m.agg_saved;
          purge_saved = inr (refl, ground (arith, lt));
          unsaved = λ e. let q = (m.unsaved e).1 in absurd (ground (arith, lt, le, q));
        })
  ]

module _ {V : Type 0} (commits : Phase → ℕ → ℕ → Bool) where
  drop_turn-IsMarked :
      (r r' : Run V) (floor : ℕ)
      → IsAligned floor
      → IsMarked r.db
      → r.db.purge_wm < floor
      → drop_turn commits r r.db.purge_wm (min (r.db.purge_wm + chunk_sec) floor) ≡ some r'
      → IsMarked r'.db
  unfolding drop_turn
  drop_turn-IsMarked r r' floor al m lt h =
      let lo = r.db.purge_wm in
      let hi = min (lo + chunk_sec) floor in
      let (_, e) = if_some (commits dropping lo hi) (some (dropped r lo hi)) r' h in
      let q : dropped r lo hi ≡ r' = cc e in
      subst (λ (x : Run V). IsMarked x.db) q
        (dropped-IsMarked r hi (chunk_end-IsAligned lo floor m.purge_aligned al) m
          (ground (arith, lt)))

module _ {V : Type 0} (less : V → V → Bool) (average : List V → V)
    (commits : Phase → ℕ → ℕ → Bool) where
  agg_turn-IsMarked :
      (r r' : Run V) (target : ℕ)
      → IsAligned target
      → IsMarked r.db
      → r.db.agg_wm < target
      → agg_turn less average commits r r.db.agg_wm (min (r.db.agg_wm + chunk_sec) target) ≡ some r'
      → IsMarked r'.db
  unfolding agg_turn aggregated
  agg_turn-IsMarked r r' target al m lt h =
      let lo = r.db.agg_wm in
      let hi = min (lo + chunk_sec) target in
      let chunk = agg_chunk less average r.db.tables lo hi in
      let (_, e) =
        if_some (commits aggregating lo hi) (map_option (aggregated r lo hi) chunk) r' h in
      let (after, _, q) = map_option-some (aggregated r lo hi) chunk r' e in
      subst (λ (x : Run V). IsMarked x.db) q
        (record {
          agg_aligned = chunk_end-IsAligned lo target m.agg_aligned al;
          purge_aligned = m.purge_aligned;
          ordered = let le = m.ordered in ground (arith, le, lt);
          agg_saved = inr (refl, ground (arith, lt));
          purge_saved = m.purge_saved;
          unsaved = λ n. absurd (cc n);
        })

  purge_turn-IsMarked :
      (r r' : Run V) (limit : ℕ)
      → IsAligned limit
      → limit ≤ r.db.agg_wm
      → IsMarked r.db
      → r.db.purge_wm < limit
      → purge_turn less average commits r r.db.purge_wm (min (r.db.purge_wm + chunk_sec) limit)
        ≡ some r'
      → IsMarked r'.db × (limit ≤ r'.db.agg_wm)
  unfolding purge_turn purged
  purge_turn-IsMarked r r' limit al le m lt h =
      let lo = r.db.purge_wm in
      let hi = min (lo + chunk_sec) limit in
      let chunk = purge_chunk less average r.db.tables lo hi in
      let (_, e) = if_some (commits purging lo hi) (map_option (purged r lo hi) chunk) r' h in
      let (after, _, q) = map_option-some (purged r lo hi) chunk r' e in
      subst (λ (x : Run V). IsMarked x.db × (limit ≤ x.db.agg_wm)) q
        (
          record {
            agg_aligned = m.agg_aligned;
            purge_aligned = chunk_end-IsAligned lo limit m.purge_aligned al;
            ordered = ground (arith, le, lt);
            agg_saved = m.agg_saved;
            purge_saved = inr (refl, ground (arith, lt));
            unsaved = λ n. let same = (m.unsaved n).1 in absurd (ground (arith, le, lt, same));
          },
          le,
        )

  run_phases-IsMarked :
      (s : Retention) (db : Tiered V) (now : ℕ)
      → IsMarked db
      → IsMarked (run_phases less average commits s now db).db
  unfolding run_phases purge_rest drop_phase agg_phase purge_phase finish agg_target purge_target
      floor_ts failed idle_run
  run_phases-IsMarked s db now m =
      let none_yet : Run V = idle_run db false in
      let d = drop_phase commits (floor_ts s now) none_yet in
      let md : IsMarked d.db =
        drain-Keeps purge_mark chunks_taken (drop_turn commits) (λ (r : Run V). IsMarked r.db)
          (floor_ts s now)
          (λ r r' m lt h.
            drop_turn-IsMarked commits r r' (floor_ts s now) (align-IsAligned _) m lt h)
          failed-IsMarked max_chunks_per_run none_yet m in
      let a = agg_phase less average commits (agg_target s now) d in
      let ma : IsMarked a.db =
        drain-Keeps agg_mark chunks_taken (agg_turn less average commits)
          (λ (r : Run V). IsMarked r.db) (agg_target s now)
          (λ r r' m lt h. agg_turn-IsMarked r r' (agg_target s now) (align-IsAligned _) m lt h)
          failed-IsMarked max_chunks_per_run d md in
      let limit = min (purge_target s now) a.db.agg_wm in
      (drain-Keeps purge_mark purges_taken (purge_turn less average commits)
        (λ (r : Run V). IsMarked r.db × (limit ≤ r.db.agg_wm)) limit
        (λ r r' p lt h.
          purge_turn-IsMarked r r' limit
            (min-IsAligned (purge_target s now) a.db.agg_wm (align-IsAligned _) ma.agg_aligned) p.1
            p.0 lt h)
        (λ r p. (failed-IsMarked r p.0, p.1)) max_chunks_per_run a (ma, ground arith)).0

  busy-IsMarked : (db : Tiered V) (b : Bool) → IsMarked db → IsMarked (record db { busy = b })
  busy-IsMarked db b m = record {
    agg_aligned = m.agg_aligned;
    purge_aligned = m.purge_aligned;
    ordered = m.ordered;
    agg_saved = m.agg_saved;
    purge_saved = m.purge_saved;
    unsaved = m.unsaved;
  }

  seed-IsMarked :
      (db seeded : Tiered V)
      → seed db ≡ some seeded
      → StartsBelow db
      → IsMarked db
      → IsMarked seeded
  unfolding seed
  seed-IsMarked db seeded h below m =
      elim (Bool-cases (nat_beq db.agg_wm 0 || nat_beq db.purge_wm 0)) [
        | inl b ↦
            let from_row : map_option (seed_at db) (oldest db.tables.raw) ≡ some seeded =
              sym
                (ap (λ x. if x then map_option (seed_at db) (oldest db.tables.raw) else some db) b)
              ∙ h in
            let (t, row, q) = map_option-some (seed_at db) (oldest db.tables.raw) seeded from_row in
            subst IsMarked q (seed_at-IsMarked db t row below m)
        | inr b ↦
            let as_is : some db ≡ some seeded =
              sym
                (ap (λ x. if x then map_option (seed_at db) (oldest db.tables.raw) else some db) b)
              ∙ h in
            let q : db ≡ seeded = cc as_is in subst IsMarked q m
      ]

  rollup_chunks-IsMarked :
      (s : Retention) (db : Tiered V) (now : ℕ)
      → IsMarked db
      → StartsBelow db
      → IsMarked (rollup_chunks less average commits s db now).db
        × StartsBelow (rollup_chunks less average commits s db now).db
  unfolding rollup_chunks idle_run
  rollup_chunks-IsMarked s db now m below =
      let body : Option (Tiered V) → Run V = λ o. elim o [
        | none ↦ idle_run db true
        | some seeded ↦ run_phases less average commits s now seeded
      ] in
      elim (Option-cases (seed db)) [
        | inl e ↦ subst (λ o. IsMarked (body o).db × StartsBelow (body o).db) (sym e) (m, below)
        | inr (seeded, e) ↦
            subst (λ o. IsMarked (body o).db × StartsBelow (body o).db) (sym e)
              (
                run_phases-IsMarked s seeded now (seed-IsMarked db seeded e below m),
                run_phases-StartsBelow less average commits s seeded now
                    (seed-NotAbove db seeded e below),
              )
      ]

  -- A run of the rollup, whatever chunk of it fails, keeps both watermarks between two buckets, the
  -- purge mark at or below the aggregation mark, and what the database has of them equal to what the
  -- memory has (IsMarked), if before the run they were so and, where something was aggregated and
  -- nothing purged, the oldest row was not above what is aggregated (StartsBelow); and after the run
  -- that holds of the oldest row again.
  pub rollup-IsMarked :
      (s : Retention) (db : Tiered V) (now : ℕ)
      → IsMarked db
      → StartsBelow db
      → IsMarked (rollup less average commits s db now).db
        × StartsBelow (rollup less average commits s db now).db
  unfolding rollup release idle_run
  rollup-IsMarked s db now m below =
      let started : Tiered V = record db { busy = true } in
      if-elim (λ (r : Run V). IsMarked r.db × StartsBelow r.db) db.busy (idle_run db false)
        (release (rollup_chunks less average commits s started now)) (λ _. (m, below))
        (λ _.
          let (marked, starts) =
            rollup_chunks-IsMarked s started now (busy-IsMarked db true m) below in
          (
            busy-IsMarked (rollup_chunks less average commits s started now).db false marked,
            starts,
          ))
