-- ===== src/Tsdb/Tiers.antt =====
-- The two tiers of server/store/sqlite.js: the samples (`metrics`) and the 5-minute buckets
-- (`metrics_5m`, by series and start), and the three transactions that move samples between them.
-- A series is its target and its metric. A row that SQL may take from several is the oldest; `less`
-- and `average` are the order and the AVG of the values. An answer none is a transaction that threw
-- and was rolled back.
use home_net_hub.Prelude.{
  ℕ, ◌+◌, ◌*◌, ◌/◌, Bool, not, ◌&&◌, Option, none, some, List, [], ◌∷◌, map, ltb, leb, nat_beq,
  if◌then◌else◌, length, any, select, ◌==◌, nat_eq, string_eq, list_eq, option_eq, pair_eq,
}
use home_net_hub.Text.{Text}
use home_net_hub.JsMap.{JsMap, set}
use home_net_hub.Tsdb.{Stored, bucket_sec}

abbrev pub Series : Type 0
Series = Text × Text

pub record Rollup (V : Type 0) : Type 0 where
  pub vmin : V
  pub vmax : V
  pub vavg : V
  pub n : ℕ
  pub tmin : ℕ
  pub tmax : ℕ

pub record Tables (V : Type 0) : Type 0 where
  pub raw : List (Stored V)
  pub agg : JsMap (Series × ℕ) (Rollup V)

-- WHERE target = :t AND metric = :m AND bucket >= :lo AND bucket < :hi
unfoldable pub is_bucket_in : Series → ℕ → ℕ → Series × ℕ → Bool
is_bucket_in k lo hi b = b.0 == k && leb lo b.1 && ltb b.1 hi

module _ {V : Type 0} where
  abbrev pub series_of : Stored V → Series
  series_of s = (s.target, s.metric)

  -- _qSeries, whose order does not matter
  unfoldable pub all_series : List (Stored V) → List Series
  all_series [] = []
  all_series (s ∷ rows) =
      let rest = all_series rows in
      if any (λ (k : Series). k == series_of s) rest then rest else series_of s ∷ rest

  -- WHERE target = :t AND metric = :m AND ts >= :lo AND ts < :hi
  unfoldable pub is_in_chunk : Series → ℕ → ℕ → Stored V → Bool
  is_in_chunk k lo hi s = series_of s == k && leb lo s.ts && ltb s.ts hi

  abbrev pub chunk_rows : List (Stored V) → Series → ℕ → ℕ → List (Stored V)
  chunk_rows raw k lo hi = select (is_in_chunk k lo hi) raw

  -- ts / BUCKET_SEC
  abbrev pub slot_of : Stored V → ℕ
  slot_of s = s.ts / bucket_sec

  -- GROUP BY ts / BUCKET_SEC: the slots that have rows, and the rows of one.
  unfoldable pub slots : List (Stored V) → List ℕ
  slots [] = []
  slots (s ∷ rows) =
      let rest = slots rows in if any (nat_beq (slot_of s)) rest then rest else slot_of s ∷ rest

  abbrev pub slot_rows : ℕ → List (Stored V) → List (Stored V)
  slot_rows b rows = select (λ s. nat_beq (slot_of s) b) rows

  -- _qRawCount
  unfoldable pub raw_count : List (Stored V) → Series → ℕ → ℕ → ℕ
  raw_count raw k lo hi = length (chunk_rows raw k lo hi)

  -- _qAggCount: the sum of `n` over those buckets
  unfoldable pub agg_count : JsMap (Series × ℕ) (Rollup V) → Series → ℕ → ℕ → ℕ
  agg_count [] k lo hi = 0
  agg_count ((b, r) ∷ agg) k lo hi =
      (if is_bucket_in k lo hi b then r.n else 0) + agg_count agg k lo hi

  -- _qRollupDel
  unfoldable pub delete_rows : List (Stored V) → Series → ℕ → ℕ → List (Stored V)
  delete_rows raw k lo hi = select (λ s. not (is_in_chunk k lo hi s)) raw

module _ {V : Type 0} (less : V → V → Bool) (average : List V → V) where
  -- The row of MIN(value) and of MAX(value).
  unfoldable pub min_row : Stored V → List (Stored V) → Stored V
  min_row s [] = s
  min_row s (o ∷ older) = let m = min_row o older in if less s.value m.value then s else m

  unfoldable pub max_row : Stored V → List (Stored V) → Stored V
  max_row s [] = s
  max_row s (o ∷ older) = let m = max_row o older in if less m.value s.value then s else m

  unfoldable pub rollup_of : Stored V → List (Stored V) → Rollup V
  rollup_of s older = record {
    vmin = (min_row s older).value;
    vmax = (max_row s older).value;
    vavg = average (map (λ (x : Stored V). x.value) (s ∷ older));
    n = length (s ∷ older);
    tmin = (min_row s older).ts;
    tmax = (max_row s older).ts;
  }

  -- INSERT OR REPLACE of one bucket, from its rows.
  unfoldable pub put_bucket :
      JsMap (Series × ℕ) (Rollup V) → Series → ℕ → List (Stored V) → JsMap (Series × ℕ) (Rollup V)
  put_bucket agg k b [] = agg
  put_bucket agg k b (s ∷ older) = set agg (k, b * bucket_sec) (rollup_of s older)

  unfoldable pub put_buckets :
      JsMap (Series × ℕ) (Rollup V)
      → Series
      → List ℕ
      → List (Stored V)
      → JsMap (Series × ℕ) (Rollup V)
  put_buckets agg k [] rows = agg
  put_buckets agg k (b ∷ bs) rows = put_bucket (put_buckets agg k bs rows) k b (slot_rows b rows)

  -- _qRollupIns
  unfoldable pub insert_rollup : Tables V → Series → ℕ → ℕ → Tables V
  insert_rollup db k lo hi =
      let rows = chunk_rows db.raw k lo hi in
      record db { agg = put_buckets db.agg k (slots rows) rows }

  -- _verify
  unfoldable pub verify : Tables V → Series → ℕ → ℕ → Option (Tables V)
  verify db k lo hi =
      if nat_beq (raw_count db.raw k lo hi) (agg_count db.agg k lo hi) then some db else none

  -- _aggChunk, over the series
  unfoldable pub agg_series : Tables V → List Series → ℕ → ℕ → Option (Tables V)
  agg_series db [] lo hi = some db
  agg_series db (k ∷ ks) lo hi = elim (verify (insert_rollup db k lo hi) k lo hi) [
    | none ↦ none
    | some db' ↦ agg_series db' ks lo hi
  ]

  unfoldable pub agg_chunk : Tables V → ℕ → ℕ → Option (Tables V)
  agg_chunk db lo hi = agg_series db (all_series db.raw) lo hi

  -- _purgeChunk, over the series
  unfoldable pub drop_verified : Option (Tables V) → Series → ℕ → ℕ → Option (Tables V)
  drop_verified none k lo hi = none
  drop_verified (some db) k lo hi = some (record db { raw = delete_rows db.raw k lo hi })

  unfoldable pub purge_one : Tables V → Series → ℕ → ℕ → Option (Tables V)
  purge_one db k lo hi = drop_verified (verify (insert_rollup db k lo hi) k lo hi) k lo hi

  unfoldable pub purge_series : Tables V → List Series → ℕ → ℕ → Option (Tables V)
  purge_series db [] lo hi = some db
  purge_series db (k ∷ ks) lo hi = elim (purge_one db k lo hi) [
    | none ↦ none
    | some db' ↦ purge_series db' ks lo hi
  ]

  unfoldable pub purge_chunk : Tables V → ℕ → ℕ → Option (Tables V)
  purge_chunk db lo hi = purge_series db (all_series db.raw) lo hi

-- _dropChunk, over the series
module _ {V : Type 0} where
  unfoldable pub drop_series : List (Stored V) → List Series → ℕ → ℕ → List (Stored V)
  drop_series raw [] lo hi = raw
  drop_series raw (k ∷ ks) lo hi = drop_series (delete_rows raw k lo hi) ks lo hi

  unfoldable pub drop_chunk : Tables V → ℕ → ℕ → Tables V
  drop_chunk db lo hi = record db { raw = drop_series db.raw (all_series db.raw) lo hi }
