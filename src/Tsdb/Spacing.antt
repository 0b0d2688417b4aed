-- ===== src/Tsdb/Spacing.antt =====
-- What record of server/store/sqlite.js lets through: at most one sample of a series in five
-- seconds, and nothing held back by a clock that was ahead.
use home_net_hub.Prelude.{
  ℕ, ◌+◌, ◌-◌, ◌≤◌, ◌≡◌, refl, ap, ◌∙◌, Bool, true, ◌||◌, Option, none, some, List, [], ◌∷◌, ◌++◌,
  arith, ltb, leb, nat_beq, if◌then◌else◌, if-elim, length, get_or, nat_eq, string_eq, list_eq,
  option_eq, pair_eq,
}
use home_net_hub.Text.{Text}
use home_net_hub.JsMap.{get}
use home_net_hub.Tsdb.{
  Row, Stored, Tsdb, series_key, is_recent, keep_row, keep_rows, write_batch, downsample_sec,
}
use home_net_hub.Tsdb.Kept.{
  Apart, Covers-later, times, IsSpaced, kept, keep_rows-IsSpaced, keep_rows-Moved,
  keep_value-stored, recent_not,
}

-- One call of record: its rows, the second of its clock and whether the transaction commits.
pub record Batch (V : Type 0) : Type 0 where
  pub rows : List (Row V)
  pub at : ℕ
  pub commits : Bool

module _ {V : Type 0} where
  -- Batches, the latest first.
  abbrev pub after_batches : Tsdb V → List (Batch V) → Tsdb V
  after_batches db [] = db
  after_batches db (b ∷ earlier) = (write_batch b.commits (after_batches db earlier) b.rows b.at).0

  abbrev pub last_at : List (Batch V) → ℕ
  last_at [] = 0
  last_at (b ∷ earlier) = b.at

  -- The clock is not set back from one batch to the next.
  abbrev pub Forward : List (Batch V) → Type 0
  Forward [] = Unit
  Forward (b ∷ earlier) = (last_at earlier ≤ b.at) × Forward earlier

  batch-IsSpaced :
      (since db : Tsdb V) (b : Batch V) (now : ℕ) (key : Text)
      → now ≤ b.at
      → IsSpaced since db key now
      → IsSpaced since (write_batch b.commits db b.rows b.at).0 key b.at
  unfolding write_batch
  batch-IsSpaced since db b now key le h =
      let db' = keep_rows db b.rows b.at in
      let n = length db'.stored - length db.stored in
      let failed : Tsdb V = record db' { stored = db.stored } in
      if-elim (λ (p : Tsdb V × Option ℕ). IsSpaced since p.0 key b.at) (nat_beq n 0 || b.commits)
        (db', some n) (failed, none) (λ _. keep_rows-IsSpaced since db b.rows now b.at key le h)
        (λ _. record {
          new = h.new;
          added = h.added;
          apart = h.apart;
          covered =
              Covers-later now b.at (get db.last_write key) (get db'.last_write key)
                (times key h.new) le (keep_rows-Moved db b.rows b.at key) h.covered;
        })

  batches-IsSpaced :
      (db : Tsdb V) (batches : List (Batch V)) (key : Text)
      → Forward batches
      → IsSpaced db (after_batches db batches) key (last_at batches)
  batches-IsSpaced db [] key f = record { new = []; added = refl; apart = tt; covered = tt }
  batches-IsSpaced db (b ∷ earlier) key f =
      batch-IsSpaced db (after_batches db earlier) b (last_at earlier) key f.0
        (batches-IsSpaced db earlier key f.1)

  -- However often the collectors report, and whichever insert fails: over any batches between which
  -- the clock is not set back, within one process and from any state of it, the samples that are
  -- added of a series are five seconds apart at least, each from the one added before.
  pub write_batch-IsSpaced :
      (db : Tsdb V) (batches : List (Batch V)) (key : Text)
      → Forward batches
      → (new : List (Stored V)) × ((after_batches db batches).stored ≡ new ++ db.stored)
        × Apart (times key new)
  write_batch-IsSpaced db batches key f =
      let h = batches-IsSpaced db batches key f in (h.new, h.added, h.apart)

  write_one-stored :
      (db : Tsdb V) (row : Row V) (ts : ℕ)
      → (write_batch true db (row ∷ []) ts).0.stored ≡ (keep_row db row ts).stored
  unfolding write_batch keep_rows
  write_one-stored db row ts =
      let n = length (keep_row db row ts).stored - length db.stored in
      if-elim (λ (p : Tsdb V × Option ℕ). p.0.stored ≡ (keep_row db row ts).stored)
        (nat_beq n 0 || true) (keep_row db row ts, some n)
        (record (keep_row db row ts) { stored = db.stored }, none) (λ _. refl)
        (λ e. absurd (ground (arith, e)))

  -- A finite value is stored at once when its series has a last write in the future, as after the
  -- clock was set back, or one five seconds ago or more, and the transaction commits; it is dropped in
  -- between.
  pub write_batch-stored :
      (db : Tsdb V) (target metric : Text) (v : V) (ts last : ℕ)
      → get db.last_write (series_key target metric) ≡ some last
      → (write_batch true db
          (record { target = target; metric = metric; value = some v } ∷ [])
          ts).0.stored
        ≡ (if ltb ts last || leb (last + downsample_sec) ts
            then record { ts = ts; target = target; metric = metric; value = v } ∷ db.stored
            else db.stored)
  unfolding keep_row
  write_batch-stored db target metric v ts last h =
      write_one-stored db (record { target = target; metric = metric; value = some v }) ts
      ∙ keep_value-stored db target metric v ts (is_recent last ts)
          (ap (λ (o : Option ℕ). is_recent (get_or o 0) ts) h)
      ∙ recent_not last ts db.stored (kept db target metric v ts).stored
