-- ===== src/Tsdb/Examples.antt =====
-- server/store/sqlite.js with a clock that was eight hours ahead, and its theorems there.
use home_net_hub.Prelude.{
  ℕ, ◌≡◌, refl, true, false, some, List, [], ◌∷◌, ◌++◌, arith, nat_eq, string_eq, list_eq,
  option_eq, pair_eq,
}
use home_net_hub.Text.{codes}
use home_net_hub.JsMap.{get, set}
use home_net_hub.Tsdb.{
  Row, Stored, restarted, Tsdb, Bucket, series_key, write_batch, keep_rows, keep_row, keep_value,
  is_recent,
}
use home_net_hub.Tsdb.Kept.{Apart, times}
use home_net_hub.Tsdb.Spacing.{Batch, after_batches, write_batch-IsSpaced}

abbrev cpu : Row ℕ
cpu = record { target = codes "nas"; metric = codes "cpu"; value = some 7 }

-- Written at 38800, then the clock went back to 10000.
abbrev ahead : Tsdb ℕ
ahead = record {
  last_write = (series_key (codes "nas") (codes "cpu"), 38800) ∷ [];
  stored = record { ts = 38800; target = codes "nas"; metric = codes "cpu"; value = 6 } ∷ [];
}

after_step_back : (write_batch true ahead (cpu ∷ cpu ∷ []) 10000).1 ≡ some 1
unfolding write_batch keep_rows keep_row keep_value is_recent get set
after_step_back = refl

-- The insert fails, and yet the series is not written for the next five seconds.
after_failure :
    (write_batch true (write_batch false ahead (cpu ∷ []) 10000).0 (cpu ∷ []) 10003).1 ≡ some 0
unfolding write_batch keep_rows keep_row keep_value is_recent get set
after_failure = refl

after_restart : (write_batch true (restarted ahead) (cpu ∷ []) 38801).1 ≡ some 1
unfolding restarted write_batch keep_rows keep_row keep_value is_recent get set
after_restart = refl

abbrev reports : List (Batch ℕ)
reports =
    record { rows = cpu ∷ []; at = 10008; commits = true }
    ∷ record { rows = cpu ∷ []; at = 10003; commits = true }
    ∷ record { rows = cpu ∷ []; at = 10000; commits = true }
    ∷ []

write_batch-IsSpaced_example :
    (new : List (Stored ℕ)) × ((after_batches (restarted ahead) reports).stored
      ≡ new ++ ahead.stored)
    × Apart (times (series_key (codes "nas") (codes "cpu")) new)
unfolding restarted
write_batch-IsSpaced_example =
    write_batch-IsSpaced (restarted ahead) reports (series_key (codes "nas") (codes "cpu"))
      (omega arith, (omega arith, (omega arith, tt)))

abbrev two_buckets : List (Bucket ℕ)
two_buckets =
    record { tmin = 20; vmin = 1; tmax = 10; vmax = 9 }
    ∷ record { tmin = 320; vmin = 4; tmax = 320; vmax = 4 }
    ∷ []
