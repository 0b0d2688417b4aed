-- ===== src/Tsdb.antt =====
-- server/store/sqlite.js: what is written into the timeseries, and how buckets become points. `V` is
-- the type of the values (REAL), and a value that is no finite number is none. Times are whole
-- seconds. `stored` is the table `metrics`, the latest row first.
pub mod Kept
pub mod Spacing
pub mod Points
pub mod Tiers
pub mod Purged
pub mod Dropped
pub mod Extremes
pub mod Counted
pub mod Verified
pub mod Aggregated
pub mod Rollup
mod Examples
use home_net_hub.Prelude.{
  ℕ, zero, suc, ◌+◌, ◌-◌, ◌*◌, ◌/◌, ◌%◌, ◌^◌, ◌≤◌, ◌<◌, min, max, String, ◌≡◌, refl, sym, ap, ◌∙◌,
  subst, ◌≢◌, ◌↔◌, ◌⊎◌, inl, inr, Bool, true, false, not, ◌&&◌, ◌||◌, Option, none, some, List, [],
  ◌∷◌, ◌++◌, map, arith, ltb, leb, nat_beq, if◌then◌else◌, ltb→lt, lt→ltb, leb→le, le→leb,
  not_leb→lt, not_ltb→le, nat_beq_iff, tests, and_true, or_false, Bool-cases, Option-cases, if-elim,
  if_some, if_none, map_option, map_option-some, length, take, drop, any, all, select, get_or,
  is_some, All, length-append, length-take, length-drop, length-select, All-append, All-map,
  All-intro, Eq, ◌==◌, beq_refl, beq_ne, beq_true, nat_eq, string_eq, list_eq, option_eq, pair_eq,
  pair_beq_iff, list_beq_iff,
}
use home_net_hub.Text.{Text}
use home_net_hub.JsMap.{JsMap, get, set}

abbrev pub downsample_sec : ℕ
downsample_sec = 5

abbrev pub max_buckets : ℕ
max_buckets = 250

abbrev pub bucket_sec : ℕ
bucket_sec = 300

pub record Row (V : Type 0) : Type 0 where
  pub target : Text
  pub metric : Text
  pub value : Option V

pub record Stored (V : Type 0) : Type 0 where
  pub ts : ℕ
  pub target : Text
  pub metric : Text
  pub value : V

pub record Tsdb (V : Type 0) : Type 0 where
  pub last_write : JsMap Text ℕ
  pub stored : List (Stored V)

-- target + '|' + metric
abbrev pub series_key : Text → Text → Text
series_key target metric = target ++ (b'|' ∷ metric)

-- tsSec >= last && tsSec - last < DOWNSAMPLE_SEC
unfoldable pub is_recent : ℕ → ℕ → Bool
is_recent last ts = leb last ts && ltb ts (last + downsample_sec)

-- One turn of the loop of record: whether the row is kept, at its time.
module _ {V : Type 0} where
  unfoldable pub keep_value : Tsdb V → Text → Text → V → ℕ → Tsdb V
  keep_value db target metric value ts =
      if is_recent (get_or (get db.last_write (series_key target metric)) 0) ts
      then db
      else record {
        last_write = set db.last_write (series_key target metric) ts;
        stored = record { ts = ts; target = target; metric = metric; value = value } ∷ db.stored;
      }

  unfoldable pub keep_row : Tsdb V → Row V → ℕ → Tsdb V
  keep_row db r ts = elim r.value [ none ↦ db | some v ↦ keep_value db r.target r.metric v ts ]

  -- The loop of record: the rows it keeps go on the table.
  unfoldable pub keep_rows : Tsdb V → List (Row V) → ℕ → Tsdb V
  keep_rows db [] ts = db
  keep_rows db (r ∷ rows) ts = keep_rows (keep_row db r ts) rows ts

  -- record, with how many rows were kept: the transaction `_insMany` takes them all, or throws (none)
  -- and leaves the table as it was, while the last writes stay set.
  unfoldable pub write_batch : Bool → Tsdb V → List (Row V) → ℕ → Tsdb V × Option ℕ
  write_batch commits db rows ts =
      let db' = keep_rows db rows ts in
      let n = length db'.stored - length db.stored in
      if nat_beq n 0 || commits then (db', some n) else (record db' { stored = db.stored }, none)

  -- The state of a new process over the same table: _lastWrite is empty.
  unfoldable pub restarted : Tsdb V → Tsdb V
  restarted db = record db { last_write = [] }

-- Math.ceil(span / MAX_BUCKETS), or 0 when the samples are as coarse.
unfoldable pub bucket_width : ℕ → ℕ → ℕ
bucket_width now since =
    let w = (max 1 (now - since) + 249) / max_buckets in if ltb downsample_sec w then w else 0

-- A bucket of either tier: its extremes, and when they were.
pub record Bucket (V : Type 0) : Type 0 where
  pub tmin : ℕ
  pub vmin : V
  pub tmax : ℕ
  pub vmax : V

module _ {V : Type 0} (same : V → V → Bool) where
  unfoldable pub points_of : Bucket V → List (ℕ × V)
  points_of b =
      if same b.vmin b.vmax
      then (b.tmin, b.vmin) ∷ []
      else if leb b.tmin b.tmax
      then (b.tmin, b.vmin) ∷ (b.tmax, b.vmax) ∷ []
      else (b.tmax, b.vmax) ∷ (b.tmin, b.vmin) ∷ []

  unfoldable pub expand : List (Bucket V) → List (ℕ × V)
  expand [] = []
  expand (b ∷ bs) = points_of b ++ expand bs
