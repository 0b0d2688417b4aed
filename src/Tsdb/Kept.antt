-- ===== src/Tsdb/Kept.antt =====
-- What the loop of record in server/store/sqlite.js keeps of a batch, row by row.
use home_net_hub.Prelude.{
  ℕ, ◌+◌, ◌≤◌, ◌≡◌, refl, sym, ap, ◌∙◌, subst, ◌≢◌, ◌⊎◌, inl, inr, Bool, true, false, ◌||◌, Option,
  none, some, List, [], ◌∷◌, ◌++◌, arith, ltb, leb, if◌then◌else◌, Bool-cases, if-elim, get_or,
  ◌==◌, beq_true, nat_eq, string_eq, list_eq, option_eq, pair_eq, list_beq_iff,
}
use home_net_hub.Text.{Text}
use home_net_hub.JsMap.{get, set, get-set_self, get-set_ne}
use home_net_hub.Tsdb.{
  Row, Stored, Tsdb, series_key, is_recent, keep_value, keep_row, keep_rows, downsample_sec,
}

-- From each sample to the one stored before it are five seconds at least.
abbrev pub Apart : List ℕ → Type 0
Apart [] = Unit
Apart (t ∷ []) = Unit
Apart (t ∷ u ∷ rest) = (u + downsample_sec ≤ t) × Apart (u ∷ rest)

-- The last write is at or after the latest of the samples, and not in the future.
abbrev pub Covers : ℕ → Option ℕ → List ℕ → Type 0
Covers now o [] = Unit
Covers now o (t ∷ rest) = (l : ℕ) × (o ≡ some l) × (t ≤ l) × (l ≤ now)

Apart-cons :
    (now ts : ℕ) (o : Option ℕ) (us : List ℕ)
    → Covers now o us
    → now ≤ ts
    → is_recent (get_or o 0) ts ≡ false
    → Apart us
    → Apart (ts ∷ us)
unfolding is_recent
Apart-cons now ts o [] l le fresh h = tt
Apart-cons now ts o (u ∷ rest) (l, same, up, past) le fresh h =
    let f = ap (λ (x : Option ℕ). is_recent (get_or x 0) ts) (sym same) ∙ fresh in
    (ground (arith, f, up, past, le), h)

-- A last write that stays, or that is now.
pub Covers-later :
    (now ts : ℕ) (o o' : Option ℕ) (us : List ℕ)
    → now ≤ ts
    → (o' ≡ o) ⊎ (o' ≡ some ts)
    → Covers now o us
    → Covers ts o' us
Covers-later now ts o o' [] le moved c = tt
Covers-later now ts o o' (t ∷ rest) le (inl e) (l, same, up, past) =
    (l, e ∙ same, up, ground (arith, past, le))
Covers-later now ts o o' (t ∷ rest) le (inr e) (l, same, up, past) =
    (ts, e, ground (arith, up, past, le), ground arith)

pub recent_not :
    {A : Type 0} (last ts : ℕ) (x y : A)
    → (if is_recent last ts then x else y)
      ≡ (if ltb ts last || leb (last + downsample_sec) ts then y else x)
unfolding is_recent
recent_not last ts x y = ground arith

module _ {V : Type 0} where
  -- The times of a series, the latest first.
  abbrev pub times : Text → List (Stored V) → List ℕ
  times key [] = []
  times key (s ∷ rest) =
      let older = times key rest in
      if series_key s.target s.metric == key then s.ts ∷ older else older

  -- What is stored beyond the rows of `since` is apart, and the last write covers it.
  pub record IsSpaced (since db : Tsdb V) (key : Text) (now : ℕ) : Type 0 where
    pub new : List (Stored V)
    pub added : db.stored ≡ new ++ since.stored
    pub apart : Apart (times key new)
    pub covered : Covers now (get db.last_write key) (times key new)

  times_same :
      (key : Text) (x : Stored V) (rest : List (Stored V))
      → (series_key x.target x.metric == key) ≡ true
      → times key (x ∷ rest) ≡ x.ts ∷ times key rest
  times_same key x rest e = ap (λ b. if b then x.ts ∷ times key rest else times key rest) e

  times_other :
      (key : Text) (x : Stored V) (rest : List (Stored V))
      → (series_key x.target x.metric == key) ≡ false
      → times key (x ∷ rest) ≡ times key rest
  times_other key x rest e = ap (λ b. if b then x.ts ∷ times key rest else times key rest) e

  -- The database after a row of a series has been kept.
  abbrev pub kept : Tsdb V → Text → Text → V → ℕ → Tsdb V
  kept db target metric v ts = record {
    last_write = set db.last_write (series_key target metric) ts;
    stored = record { ts = ts; target = target; metric = metric; value = v } ∷ db.stored;
  }

  kept-IsSpaced :
      (since db : Tsdb V) (target metric : Text) (v : V) (now ts : ℕ) (key : Text)
      → now ≤ ts
      → is_recent (get_or (get db.last_write (series_key target metric)) 0) ts ≡ false
      → IsSpaced since db key now
      → IsSpaced since (kept db target metric v ts) key ts
  kept-IsSpaced since db target metric v now ts key le fresh h =
      let x : Stored V = record { ts = ts; target = target; metric = metric; value = v } in
      let k = series_key target metric in
      elim (Bool-cases (k == key)) [
        | inl e ↦
            let same = beq_true k key e in
            record {
              new = x ∷ h.new;
              added = ap (λ r. x ∷ r) h.added;
              apart = subst Apart (sym (times_same key x h.new e)) (
                  Apart-cons now ts (get db.last_write key) (times key h.new) h.covered le
                    (ap (λ j. is_recent (get_or (get db.last_write j) 0) ts) (sym same) ∙ fresh)
                    h.apart);
              covered =
                  subst (Covers ts (get (set db.last_write k ts) key))
                    (sym (times_same key x h.new e))
                    (
                      ts,
                      ap (get (set db.last_write k ts)) (sym same)
                          ∙ get-set_self db.last_write k ts,
                      ground arith,
                      ground arith,
                    );
            }
        | inr e ↦
            let other : k ≢ key = λ same. ground (arith, e, (list_beq_iff k key).1 same) in
            record {
              new = x ∷ h.new;
              added = ap (λ r. x ∷ r) h.added;
              apart = subst Apart (sym (times_other key x h.new e)) h.apart;
              covered =
                  subst (Covers ts (get (set db.last_write k ts) key))
                    (sym (times_other key x h.new e))
                    (Covers-later now ts (get db.last_write key) (get (set db.last_write k ts) key)
                      (times key h.new) le (inl (get-set_ne db.last_write k key ts other))
                      h.covered);
            }
      ]

  -- The clock goes on while nothing is kept.
  later-IsSpaced :
      (since db : Tsdb V) (now ts : ℕ) (key : Text)
      → now ≤ ts
      → IsSpaced since db key now
      → IsSpaced since db key ts
  later-IsSpaced since db now ts key le h = record {
    new = h.new;
    added = h.added;
    apart = h.apart;
    covered =
        Covers-later now ts (get db.last_write key) (get db.last_write key) (times key h.new) le
          (inl refl) h.covered;
  }

  keep_value-IsSpaced :
      (since db : Tsdb V) (target metric : Text) (v : V) (now ts : ℕ) (key : Text)
      → now ≤ ts
      → IsSpaced since db key now
      → IsSpaced since (keep_value db target metric v ts) key ts
  unfolding keep_value
  keep_value-IsSpaced since db target metric v now ts key le h =
      if-elim (λ (d : Tsdb V). IsSpaced since d key ts)
        (is_recent (get_or (get db.last_write (series_key target metric)) 0) ts) db
        (kept db target metric v ts) (λ _. later-IsSpaced since db now ts key le h)
        (λ e. kept-IsSpaced since db target metric v now ts key le e h)

  keep_row-IsSpaced :
      (since db : Tsdb V) (r : Row V) (now ts : ℕ) (key : Text)
      → now ≤ ts
      → IsSpaced since db key now
      → IsSpaced since (keep_row db r ts) key ts
  unfolding keep_row
  keep_row-IsSpaced since db r now ts key le h =
      elim r.value
        as (λ o.
          IsSpaced since (elim o [ none ↦ db | some v ↦ keep_value db r.target r.metric v ts ]) key
            ts) [
              | none ↦ later-IsSpaced since db now ts key le h
              | some v ↦ keep_value-IsSpaced since db r.target r.metric v now ts key le h
            ]

  pub keep_rows-IsSpaced :
      (since db : Tsdb V) (rows : List (Row V)) (now ts : ℕ) (key : Text)
      → now ≤ ts
      → IsSpaced since db key now
      → IsSpaced since (keep_rows db rows ts) key ts
  unfolding keep_rows
  keep_rows-IsSpaced since db [] now ts key le h = later-IsSpaced since db now ts key le h
  keep_rows-IsSpaced since db (r ∷ rows) now ts key le h =
      keep_rows-IsSpaced since (keep_row db r ts) rows ts ts key (ground arith)
        (keep_row-IsSpaced since db r now ts key le h)

  -- The last write of a series stays, or is now.
  abbrev pub Moved : Tsdb V → Tsdb V → Text → ℕ → Type 0
  Moved db db' key ts =
      (get db'.last_write key ≡ get db.last_write key) ⊎ (get db'.last_write key ≡ some ts)

  keep_value-Moved :
      (db : Tsdb V) (target metric : Text) (v : V) (ts : ℕ) (key : Text)
      → Moved db (keep_value db target metric v ts) key ts
  unfolding keep_value
  keep_value-Moved db target metric v ts key =
      let k = series_key target metric in
      if-elim (λ (d : Tsdb V). Moved db d key ts) (is_recent (get_or (get db.last_write k) 0) ts) db
        (kept db target metric v ts) (λ _. inl refl)
        (λ _. elim (Bool-cases (k == key)) [
          | inl e ↦
              let same = beq_true k key e in
              inr (ap (get (set db.last_write k ts)) (sym same) ∙ get-set_self db.last_write k ts)
          | inr e ↦ inl (
              get-set_ne db.last_write k key ts
                (λ same. ground (arith, e, (list_beq_iff k key).1 same)))
        ])

  keep_row-Moved :
      (db : Tsdb V) (r : Row V) (ts : ℕ) (key : Text) → Moved db (keep_row db r ts) key ts
  unfolding keep_row
  keep_row-Moved db r ts key =
      elim r.value
        as (λ o.
          Moved db (elim o [ none ↦ db | some v ↦ keep_value db r.target r.metric v ts ]) key ts) [
            | none ↦ inl refl
            | some v ↦ keep_value-Moved db r.target r.metric v ts key
          ]

  pub keep_rows-Moved :
      (db : Tsdb V) (rows : List (Row V)) (ts : ℕ) (key : Text)
      → Moved db (keep_rows db rows ts) key ts
  unfolding keep_rows
  keep_rows-Moved db [] ts key = inl refl
  keep_rows-Moved db (r ∷ rows) ts key = elim (keep_rows-Moved (keep_row db r ts) rows ts key) [
    | inr now ↦ inr now
    | inl same ↦ elim (keep_row-Moved db r ts key) [
      | inr now ↦ inr (same ∙ now)
      | inl as_was ↦ inl (same ∙ as_was)
    ]
  ]

  pub keep_value-stored :
      (db : Tsdb V) (target metric : Text) (v : V) (ts : ℕ) (b : Bool)
      → is_recent (get_or (get db.last_write (series_key target metric)) 0) ts ≡ b
      → (keep_value db target metric v ts).stored
        ≡ (if b then db.stored else (kept db target metric v ts).stored)
  unfolding keep_value
  keep_value-stored db target metric v ts b e =
      if-elim
        (λ (d : Tsdb V). d.stored ≡ (if b then db.stored else (kept db target metric v ts).stored))
        (is_recent (get_or (get db.last_write (series_key target metric)) 0) ts) db
        (kept db target metric v ts) (λ r. ground (arith, r, e)) (λ r. ground (arith, r, e))
