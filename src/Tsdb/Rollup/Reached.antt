-- ===== src/Tsdb/Rollup/Reached.antt =====
-- The aggregation of server/store/sqlite.js gets on: its checks do not fail, so that nothing but the
-- database can stop it.
use home_net_hub.Prelude.{
  ℕ, zero, suc, ◌+◌, ◌-◌, ◌*◌, ◌≤◌, min, ◌≡◌, refl, sym, ap, ◌∙◌, subst, Bool, true, none, some,
  List, arith, if◌then◌else◌, map_option, nat_eq, string_eq, list_eq, option_eq, pair_eq,
}
use home_net_hub.Tsdb.{bucket_sec}
use home_net_hub.Tsdb.Tiers.{agg_chunk}
use home_net_hub.Tsdb.Aggregated.{IsBelow, agg_chunk-some}
use home_net_hub.Tsdb.Rollup.{
  Tiered, Run, Phase, aggregating, drain, chunk_sec, max_chunks_per_run, chunks_taken, agg_mark,
  agg_turn, aggregated, agg_phase,
}
use home_net_hub.Tsdb.Rollup.Loop.{drain-cases}
use home_net_hub.Tsdb.Rollup.Marks.{IsAligned, chunk_end-IsAligned}

-- The aggregation mark stands between two buckets, and every bucket starts below it.
pub record IsReady {V : Type 0} (db : Tiered V) : Type 0 where
  pub aligned : IsAligned db.agg_wm
  pub below : IsBelow db.agg_wm db.tables.agg

module _ {V : Type 0} (less : V → V → Bool) (average : List V → V) (commits : Phase → ℕ → ℕ → Bool)
    (committed : (lo hi : ℕ) → commits aggregating lo hi ≡ true) where
  agg_turn-some :
      (r : Run V) (hi : ℕ)
      → IsAligned hi
      → IsReady r.db
      → r.db.agg_wm ≤ hi
      → (r' : Run V) × (agg_turn less average commits r r.db.agg_wm hi ≡ some r')
        × (r'.db.agg_wm ≡ hi)
        × IsReady r'.db
        × (r'.chunks ≡ r.chunks + 1)
  unfolding agg_turn aggregated
  agg_turn-some r hi (j, h) ready le =
      let lo = r.db.agg_wm in
      let (i, l) = ready.aligned in
      let low : i ≤ j = ground (arith, h, l, le) in
      let start = subst (λ x. IsBelow x r.db.tables.agg) l ready.below in
      let (after, chunk, below) = agg_chunk-some less average r.db.tables i j low start in
      let chunk' : agg_chunk less average r.db.tables lo hi ≡ some after =
        ap (λ x. agg_chunk less average r.db.tables x hi) l
        ∙ ap (λ x. agg_chunk less average r.db.tables (i * bucket_sec) x) h
        ∙ chunk in
      (
        aggregated r lo hi after,
        ap
              (λ b.
                if b
                then map_option (aggregated r lo hi) (agg_chunk less average r.db.tables lo hi)
                else none)
              (committed lo hi)
            ∙ ap (map_option (aggregated r lo hi)) chunk',
        refl,
        record { aligned = (j, h); below = subst (λ x. IsBelow x after.agg) (sym h) below },
        refl,
      )

  drain-IsReady :
      (n target : ℕ) (r : Run V)
      → IsAligned target
      → IsReady r.db
      → max_chunks_per_run ≤ r.chunks + n
      → (min (r.db.agg_wm + (max_chunks_per_run - r.chunks) * chunk_sec) target
          ≤ (drain agg_mark chunks_taken (agg_turn less average commits) n target r).db.agg_wm)
        × IsReady (drain agg_mark chunks_taken (agg_turn less average commits) n target r).db
  unfolding drain
  drain-IsReady zero target r al ready enough = (ground (arith, enough), ready)
  drain-IsReady (suc n) target r al ready enough =
      let lo = r.db.agg_wm in
      let hi = min (lo + chunk_sec) target in
      let end = chunk_end-IsAligned lo target ready.aligned al in
      drain-cases agg_mark chunks_taken (agg_turn less average commits)
        (λ (x : Run V).
          (min (lo + (max_chunks_per_run - r.chunks) * chunk_sec) target ≤ x.db.agg_wm)
          × IsReady x.db)
        n target r (λ at. (ground (arith, at), ready)) (λ full. (ground (arith, full), ready))
        (λ lt gone.
          let (r1, took, _, _, _) = agg_turn-some r hi end ready (ground (arith, lt)) in
          absurd (cc (sym gone ∙ took)))
        (λ r' lt room took'.
          let (r1, took, at, ready1, one) = agg_turn-some r hi end ready (ground (arith, lt)) in
          let both : some r1 ≡ some r' = sym took ∙ took' in
          let same : r1 ≡ r' = cc both in
          let mark : r'.db.agg_wm ≡ hi = ap (λ (x : Run V). x.db.agg_wm) (sym same) ∙ at in
          let count : r'.chunks ≡ r.chunks + 1 = ap (λ (x : Run V). x.chunks) (sym same) ∙ one in
          let (far, done) =
            drain-IsReady n target r' al (subst (λ (x : Run V). IsReady x.db) same ready1)
              (ground (arith, enough, count)) in
          (ground (arith, far, mark, count), done))

  -- The aggregation takes all the chunks that the run has left or reaches its target, if the database
  -- commits, the target stands between two buckets, and so does the mark, with every bucket starting
  -- below it; and so it is then again.
  pub agg_phase-IsReady :
      (r : Run V) (target : ℕ)
      → IsAligned target
      → IsReady r.db
      → (min (r.db.agg_wm + (max_chunks_per_run - r.chunks) * chunk_sec) target
          ≤ (agg_phase less average commits target r).db.agg_wm)
        × IsReady (agg_phase less average commits target r).db
  unfolding agg_phase
  agg_phase-IsReady r target al ready =
      drain-IsReady max_chunks_per_run target r al ready (ground arith)
