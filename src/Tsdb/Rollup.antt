-- ===== src/Tsdb/Rollup.antt =====
-- The rollup of server/store/sqlite.js: its two watermarks, in memory and as the database keeps them,
-- the three phases of one run, the sweep of the old buckets and what is read back after a restart.
-- The three loops have one shape, `drain`, with fuel for 24 turns: each turn that goes on counts one
-- chunk, and the test of the loop allows no more than 24 of them. `commits` tells for each phase and chunk whether the database takes the transaction; a
-- transaction that `verify` rolls back fails as well. Nothing runs between the chunks of one run.
pub mod Loop
pub mod Marks
pub mod Starts
pub mod Ordered
pub mod Progress
pub mod Reached
mod Examples
use home_net_hub.Prelude.{
  ℕ, zero, suc, ◌+◌, ◌-◌, ◌*◌, ◌/◌, ◌%◌, ◌^◌, ◌≤◌, ◌<◌, min, max, String, ◌≡◌, refl, sym, ap, ◌∙◌,
  subst, ◌≢◌, ◌↔◌, ◌⊎◌, inl, inr, Bool, true, false, not, ◌&&◌, ◌||◌, Option, none, some, List, [],
  ◌∷◌, ◌++◌, map, arith, ltb, leb, nat_beq, if◌then◌else◌, ltb→lt, lt→ltb, leb→le, le→leb,
  not_leb→lt, not_ltb→le, nat_beq_iff, tests, and_true, or_false, Bool-cases, Option-cases, if-elim,
  if_some, if_none, map_option, map_option-some, length, take, drop, any, all, select, get_or,
  is_some, All, length-append, length-take, length-drop, length-select, All-append, All-map,
  All-intro, Eq, ◌==◌, beq_refl, beq_ne, beq_true, nat_eq, string_eq, list_eq, option_eq, pair_eq,
  pair_beq_iff, list_beq_iff,
}
use home_net_hub.Text.{Text}
use home_net_hub.JsMap.{JsMap, get, set}
use home_net_hub.Tsdb.{Stored, bucket_sec}
use home_net_hub.Tsdb.Tiers.{
  Series, Rollup, Tables, all_series, chunk_rows, slots, agg_chunk, purge_chunk, drop_chunk,
}

abbrev pub day_sec : ℕ
day_sec = 86400

-- AGG_AFTER_DAYS, PURGE_AFTER_DAYS and AGG_RETENTION_DAYS, in whole days.
pub record Retention : Type 0 where
  pub agg_after_days : ℕ
  pub purge_after_days : ℕ
  pub agg_retention_days : ℕ

pub record RetentionEnv : Type 0 where
  pub agg_after : Option Text
  pub purge_after : Option Text
  pub agg_retention : Option Text
  pub retention : Option Text

-- a || b, of variables of the environment
unfoldable pub or_else : Option Text → Option Text → Option Text
or_else none b = b
or_else (some []) b = b
or_else (some (c ∷ s)) b = some (c ∷ s)

-- Number(variable || days); `number` is Number.
unfoldable pub days_of : (Text → ℕ) → Option Text → ℕ → ℕ
days_of number v days = elim (or_else v none) [ none ↦ days | some s ↦ number s ]

-- none where the module throws.
unfoldable pub retention_of : (Text → ℕ) → RetentionEnv → Option Retention
retention_of number env =
    let s : Retention = record {
      agg_after_days = days_of number env.agg_after 3;
      purge_after_days = days_of number env.purge_after 4;
      agg_retention_days = days_of number (or_else env.agg_retention env.retention) 30;
    } in
    if leb s.purge_after_days s.agg_after_days then none else some s

abbrev pub chunk_sec : ℕ
chunk_sec = 3600

abbrev pub max_chunks_per_run : ℕ
max_chunks_per_run = 24

pub data Phase : Type 0 where
  dropping : Phase
  aggregating : Phase
  purging : Phase

-- `saved_agg` and `saved_purge` are the rows agg_watermark and purge_watermark of tsdb_meta.
pub record Tiered (V : Type 0) : Type 0 where
  pub tables : Tables V
  pub saved_agg : Option ℕ
  pub saved_purge : Option ℕ
  pub agg_wm : ℕ
  pub purge_wm : ℕ
  pub fails : ℕ
  pub busy : Bool

-- One run: the store, and what the run reports. `chunks` counts the chunks that are dropped or
-- aggregated, and at the end of the run all of them; `pchunks` counts those that are purged.
pub record Run (V : Type 0) : Type 0 where
  pub db : Tiered V
  pub chunks : ℕ
  pub pchunks : ℕ
  pub buckets : ℕ
  pub removed : ℕ
  pub done : Bool

-- align
unfoldable pub align : ℕ → ℕ
align t = t / bucket_sec * bucket_sec

unfoldable pub agg_target : Retention → ℕ → ℕ
agg_target s now = align (now - s.agg_after_days * day_sec)

unfoldable pub purge_target : Retention → ℕ → ℕ
purge_target s now = align (now - s.purge_after_days * day_sec)

unfoldable pub floor_ts : Retention → ℕ → ℕ
floor_ts s now = align (now - s.agg_retention_days * day_sec)

unfoldable pub later : ℕ → ℕ → ℕ
later old hi = if ltb old hi then hi else old

module _ {V : Type 0} where
  -- _qOldest
  unfoldable pub oldest : List (Stored V) → Option ℕ
  oldest [] = none
  oldest (s ∷ rows) = elim (oldest rows) [ none ↦ some s.ts | some t ↦ some (min s.ts t) ]

  -- The watermarks as the constructor reads them.
  unfoldable pub reopen : Tiered V → Tiered V
  reopen db = record db {
    agg_wm = get_or db.saved_agg 0;
    purge_wm = get_or db.saved_purge 0;
    fails = 0;
    busy = false;
  }

  -- Each watermark that is 0 starts at the oldest row; none without rows.
  unfoldable pub seed_at : Tiered V → ℕ → Tiered V
  seed_at db first = record db {
    agg_wm = if nat_beq db.agg_wm 0 then align first else db.agg_wm;
    purge_wm = if nat_beq db.purge_wm 0 then align first else db.purge_wm;
  }

  unfoldable pub seed : Tiered V → Option (Tiered V)
  seed db =
      if nat_beq db.agg_wm 0 || nat_beq db.purge_wm 0
      then map_option (seed_at db) (oldest db.tables.raw)
      else some db

  -- `changes` of the statements of a chunk
  unfoldable pub bucket_count : List (Stored V) → List Series → ℕ → ℕ → ℕ
  bucket_count raw [] lo hi = 0
  bucket_count raw (k ∷ ks) lo hi =
      length (slots (chunk_rows raw k lo hi)) + bucket_count raw ks lo hi

  abbrev pub row_loss : Tables V → Tables V → ℕ
  row_loss db db' = length db.raw - length db'.raw

  unfoldable pub failed : Run V → Run V
  failed r = record r { db = record r.db { fails = r.db.fails + 1 } }

  -- After the try of a loop: an answer none is what its catch sees, and ends the loop.
  unfoldable pub after_turn : (Run V → Run V) → Run V → Option (Run V) → Run V
  after_turn loop r none = failed r
  after_turn loop r (some r') = loop r'

  -- A loop `while (mark < target && taken < MAX_CHUNKS_PER_RUN)`, for at most `fuel` turns.
  unfoldable pub drain :
      (Tiered V → ℕ) → (Run V → ℕ) → (Run V → ℕ → ℕ → Option (Run V)) → ℕ → ℕ → Run V → Run V
  drain mark taken turn zero target r = r
  drain mark taken turn (suc fuel) target r =
      elim (ltb (mark r.db) target && ltb (taken r) max_chunks_per_run) [
        | false ↦ r
        | true ↦
            after_turn (drain mark taken turn fuel target) r
              (turn r (mark r.db) (min (mark r.db + chunk_sec) target))
      ]

  unfoldable pub idle_run : Tiered V → Bool → Run V
  idle_run db done = record {
    db = db;
    chunks = 0;
    pchunks = 0;
    buckets = 0;
    removed = 0;
    done = done;
  }

  -- The `finally` of rollup.
  unfoldable pub release : Run V → Run V
  release r = record r { db = record r.db { busy = false } }

  unfoldable pub finish : Retention → ℕ → ℕ → Run V → Run V
  finish s now limit r = record r {
    chunks = r.chunks + r.pchunks;
    done =
        leb (floor_ts s now) r.db.purge_wm
        && leb (agg_target s now) r.db.agg_wm
        && leb limit r.db.purge_wm;
  }

  abbrev pub agg_mark : Tiered V → ℕ
  agg_mark db = db.agg_wm

  abbrev pub purge_mark : Tiered V → ℕ
  purge_mark db = db.purge_wm

  abbrev pub chunks_taken : Run V → ℕ
  chunks_taken r = r.chunks

  abbrev pub purges_taken : Run V → ℕ
  purges_taken r = r.pchunks

  -- The sweep: DELETE FROM metrics_5m WHERE bucket < cutoff.
  unfoldable pub sweep_buckets : JsMap (Series × ℕ) (Rollup V) → ℕ → JsMap (Series × ℕ) (Rollup V)
  sweep_buckets agg cutoff = select (λ (e : (Series × ℕ) × Rollup V). leb cutoff e.0.1) agg

  unfoldable pub cleanup_cutoff : Retention → Tiered V → ℕ → ℕ
  cleanup_cutoff s db now = min (align (now - s.agg_retention_days * day_sec)) db.purge_wm

  unfoldable pub cleanup : Retention → Tiered V → ℕ → Tiered V
  cleanup s db now = if nat_beq (cleanup_cutoff s db now) 0 then db else record db {
    tables = record db.tables { agg = sweep_buckets db.tables.agg (cleanup_cutoff s db now) };
  }

  -- A chunk that was taken, with the watermarks that its transaction saves (_qMetaSet).
  unfoldable pub dropped : Run V → ℕ → ℕ → Run V
  dropped r lo hi =
      let after = drop_chunk r.db.tables lo hi in
      record {
        db = record r.db {
          tables = after;
          saved_agg = if ltb r.db.agg_wm hi then some hi else r.db.saved_agg;
          saved_purge = some hi;
          agg_wm = later r.db.agg_wm hi;
          purge_wm = hi;
          fails = 0;
        };
        chunks = r.chunks + 1;
        pchunks = r.pchunks;
        buckets = r.buckets;
        removed = r.removed + row_loss r.db.tables after;
        done = r.done;
      }

  unfoldable pub aggregated : Run V → ℕ → ℕ → Tables V → Run V
  aggregated r lo hi after = record {
    db = record r.db { tables = after; saved_agg = some hi; agg_wm = hi; fails = 0 };
    chunks = r.chunks + 1;
    pchunks = r.pchunks;
    buckets = r.buckets + bucket_count r.db.tables.raw (all_series r.db.tables.raw) lo hi;
    removed = r.removed;
    done = r.done;
  }

  unfoldable pub purged : Run V → ℕ → ℕ → Tables V → Run V
  purged r lo hi after = record {
    db = record r.db { tables = after; saved_purge = some hi; purge_wm = hi; fails = 0 };
    chunks = r.chunks;
    pchunks = r.pchunks + 1;
    buckets = r.buckets;
    removed = r.removed + row_loss r.db.tables after;
    done = r.done;
  }

module _ {V : Type 0} (commits : Phase → ℕ → ℕ → Bool) where
  unfoldable pub drop_turn : Run V → ℕ → ℕ → Option (Run V)
  drop_turn r lo hi = if commits dropping lo hi then some (dropped r lo hi) else none

  unfoldable pub drop_phase : ℕ → Run V → Run V
  drop_phase floor r = drain purge_mark chunks_taken drop_turn max_chunks_per_run floor r

module _ {V : Type 0} (less : V → V → Bool) (average : List V → V)
    (commits : Phase → ℕ → ℕ → Bool) where
  unfoldable pub agg_turn : Run V → ℕ → ℕ → Option (Run V)
  agg_turn r lo hi =
      if commits aggregating lo hi
      then map_option (aggregated r lo hi) (agg_chunk less average r.db.tables lo hi)
      else none

  unfoldable pub agg_phase : ℕ → Run V → Run V
  agg_phase target r = drain agg_mark chunks_taken agg_turn max_chunks_per_run target r

  unfoldable pub purge_turn : Run V → ℕ → ℕ → Option (Run V)
  purge_turn r lo hi =
      if commits purging lo hi
      then map_option (purged r lo hi) (purge_chunk less average r.db.tables lo hi)
      else none

  unfoldable pub purge_phase : ℕ → Run V → Run V
  purge_phase limit r = drain purge_mark purges_taken purge_turn max_chunks_per_run limit r

  -- Phase B, never past what is aggregated.
  unfoldable pub purge_rest : Retention → ℕ → Run V → Run V
  purge_rest s now r =
      let limit = min (purge_target s now) r.db.agg_wm in finish s now limit (purge_phase limit r)

  unfoldable pub run_phases : Retention → ℕ → Tiered V → Run V
  run_phases s now db =
      purge_rest s now
        (agg_phase (agg_target s now) (drop_phase commits (floor_ts s now) (idle_run db false)))

  -- _rollup
  unfoldable pub rollup_chunks : Retention → Tiered V → ℕ → Run V
  rollup_chunks s db now = elim (seed db) [
    | none ↦ idle_run db true
    | some seeded ↦ run_phases s now seeded
  ]

  unfoldable pub rollup : Retention → Tiered V → ℕ → Run V
  rollup s db now =
      if db.busy
      then idle_run db false
      else release (rollup_chunks s (record db { busy = true }) now)
