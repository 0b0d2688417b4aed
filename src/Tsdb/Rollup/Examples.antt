-- ===== src/Tsdb/Rollup/Examples.antt =====
-- server/store/sqlite.js with three samples in two buckets, aggregated and purged, and its theorems
-- there.
use home_net_hub.Prelude.{
  ℕ, ◌+◌, ◌/◌, ◌≤◌, ◌≡◌, refl, sym, ◌∙◌, subst, inl, inr, Bool, true, false, not, none, some, List,
  [], ◌∷◌, arith, ltb, length, select, nat_eq, string_eq, list_eq, option_eq, pair_eq,
}
use home_net_hub.Text.{Text, codes}
use home_net_hub.JsMap.{get, set}
use home_net_hub.Tsdb.{Stored}
use home_net_hub.Tsdb.Tiers.{
  Series, Tables, all_series, slots, is_in_chunk, is_bucket_in, slot_rows, raw_count, agg_count,
  delete_rows, min_row, max_row, rollup_of, put_bucket, put_buckets, insert_rollup, verify,
  purge_one, drop_verified, purge_series, purge_chunk,
}
use home_net_hub.Tsdb.Extremes.{IsRollup, purge_chunk-IsRollup}
use home_net_hub.Tsdb.Dropped.{is_between, drop_chunk-select}
use home_net_hub.Tsdb.Purged.{series_rows}
use home_net_hub.Tsdb.Tiers.{Rollup, drop_chunk}
use home_net_hub.Tsdb.Rollup.{
  Tiered, Run, Phase, rollup, agg_phase, Retention, retention_of, days_of, or_else, oldest, align,
  drain, purge_mark, agg_mark, chunks_taken, purges_taken, drop_turn, agg_turn, purge_turn,
  drop_phase, purge_phase,
}
use home_net_hub.Tsdb.Rollup.Marks.{IsMarked, StartsBelow}
use home_net_hub.Tsdb.Rollup.Ordered.{rollup-IsMarked}
use home_net_hub.Tsdb.Rollup.Reached.{IsReady, agg_phase-IsReady}
use home_net_hub.Tsdb.Rollup.Progress.{rollup-chunks, IsCounted, phases-fuel}

abbrev total : List ℕ → ℕ
total [] = 0
total (x ∷ xs) = x + total xs

abbrev mean : List ℕ → ℕ
mean xs = total xs / length xs

abbrev cpu : Series
cpu = (codes "nas", codes "cpu")

abbrev at : ℕ → ℕ → Stored ℕ
at ts value = record { ts = ts; target = codes "nas"; metric = codes "cpu"; value = value }

abbrev filled : Tables ℕ
filled = record { raw = at 620 4 ∷ at 320 9 ∷ at 310 3 ∷ []; agg = [] }

abbrev emptied : Tables ℕ
emptied = record {
  raw = [];
  agg =
      ((cpu, 300), record { vmin = 3; vmax = 9; vavg = 6; n = 2; tmin = 310; tmax = 320 })
      ∷ ((cpu, 600), record { vmin = 4; vmax = 4; vavg = 4; n = 1; tmin = 620; tmax = 620 })
      ∷ [];
}

purge_filled : purge_chunk ltb mean filled 300 900 ≡ some emptied
unfolding purge_chunk purge_series purge_one drop_verified verify insert_rollup put_buckets
    put_bucket slots all_series raw_count agg_count delete_rows rollup_of min_row max_row
    is_in_chunk is_bucket_in set
purge_filled = refl

rows_310 : slot_rows 1 (series_rows filled.raw cpu) ≡ at 320 9 ∷ at 310 3 ∷ []
rows_310 = refl

ltb_irrefl : (a : ℕ) → ltb a a ≡ false
ltb_irrefl a = ground arith

ltb_trans : (a b c : ℕ) → ltb a b ≡ true → ltb b c ≡ true → ltb a c ≡ true
ltb_trans a b c h g = ground (arith, h, g)

purge_chunk-IsRollup_example :
    ((r : Rollup ℕ) × (get emptied.agg (cpu, 300) ≡ some r)
      × IsRollup ltb mean (at 320 9 ∷ at 310 3 ∷ []) r)
    × (slot_rows 1 (series_rows emptied.raw cpu) ≡ [])
purge_chunk-IsRollup_example =
    purge_chunk-IsRollup ltb mean ltb_irrefl ltb_trans filled emptied cpu 1 3 1 (at 320 9)
      (at 310 3 ∷ []) (ground arith) (ground arith) rows_310 purge_filled

abbrev fresh : Tiered ℕ
fresh = record {
  tables = filled;
  saved_agg = none;
  saved_purge = none;
  agg_wm = 300;
  purge_wm = 300;
  fails = 0;
  busy = false;
}

-- Aggregated up to 900, and nothing purged.
abbrev unpurged : Tiered ℕ
unpurged = record fresh { saved_agg = some 900; agg_wm = 900; purge_wm = 0 }

unpurged-IsMarked : IsMarked unpurged
unpurged-IsMarked = record {
  agg_aligned = (3, refl);
  purge_aligned = (0, refl);
  ordered = ground arith;
  agg_saved = inr (refl, ground arith);
  purge_saved = inl refl;
  unsaved = λ e. absurd (cc e);
}

oldest_is_310 : oldest filled.raw ≡ some 310
unfolding oldest
oldest_is_310 = refl

unpurged-StartsBelow : StartsBelow unpurged
unfolding align
unpurged-StartsBelow t o no_purge some_agg =
    let both : some 310 ≡ some t = sym oldest_is_310 ∙ o in
    let same : 310 ≡ t = cc both in subst (λ x. align x ≤ 900) same (ground arith)

abbrev always : Phase → ℕ → ℕ → Bool
always p lo hi = true

abbrev defaults : Retention
defaults = record { agg_after_days = 3; purge_after_days = 4; agg_retention_days = 30 }

abbrev fixed_number : Text → ℕ
fixed_number s = 5

default_retention :
    retention_of fixed_number
      (record { agg_after = none; purge_after = none; agg_retention = none; retention = none })
    ≡ some defaults
unfolding retention_of days_of or_else
default_retention = refl

-- A band that is no gap is refused.
no_gap :
    retention_of fixed_number (record {
      agg_after = some (codes "5");
      purge_after = none;
      agg_retention = none;
      retention = none;
    })
    ≡ none
unfolding retention_of days_of or_else
no_gap = refl

rollup-IsMarked_example :
    IsMarked (rollup ltb mean always defaults unpurged 400000).db
    × StartsBelow (rollup ltb mean always defaults unpurged 400000).db
rollup-IsMarked_example =
    rollup-IsMarked ltb mean always defaults unpurged 400000 unpurged-IsMarked unpurged-StartsBelow

rollup-chunks_example : IsCounted ltb mean always (rollup ltb mean always defaults fresh 400000)
rollup-chunks_example = rollup-chunks ltb mean always defaults fresh 400000

abbrev begun : Run ℕ
begun = record { db = fresh; chunks = 23; pchunks = 0; buckets = 0; removed = 0; done = false }

begun-IsReady : IsReady begun.db
begun-IsReady = record { aligned = (1, refl); below = tt }

phases-fuel_example :
    (drain purge_mark chunks_taken (drop_turn always) 100 600 begun ≡ drop_phase always 600 begun)
    × (drain agg_mark chunks_taken (agg_turn ltb mean always) 100 140700 begun
        ≡ agg_phase ltb mean always 140700 begun)
    × (drain purge_mark purges_taken (purge_turn ltb mean always) 100 900 begun
        ≡ purge_phase ltb mean always 900 begun)
phases-fuel_example = phases-fuel ltb mean always 100 600 140700 900 begun (ground arith)

agg_phase-IsReady_example :
    (3900 ≤ (agg_phase ltb mean always 140700 begun).db.agg_wm)
    × IsReady (agg_phase ltb mean always 140700 begun).db
agg_phase-IsReady_example =
    agg_phase-IsReady ltb mean always (λ lo hi. refl) begun 140700 (469, refl) begun-IsReady

drop_chunk-select_example :
    ((drop_chunk filled 300 600).raw ≡ select (λ s. not (is_between 300 600 s)) filled.raw)
    × ((drop_chunk filled 300 600).agg ≡ filled.agg)
drop_chunk-select_example = drop_chunk-select filled 300 600
