-- ===== src/Tsdb/Verified.antt =====
-- The check that guards each chunk (_verify of server/store/sqlite.js) passes on buckets just written.
use home_net_hub.Prelude.{
  ℕ, ◌+◌, ◌*◌, ◌≤◌, ◌<◌, ◌≡◌, refl, sym, ap, ◌∙◌, subst, ◌≢◌, inl, inr, Bool, true, false, ◌&&◌,
  none, some, List, [], ◌∷◌, arith, ltb, leb, nat_beq, if◌then◌else◌, nat_beq_iff, and_true,
  or_false, Bool-cases, if-elim, length, any, select, All, ◌==◌, beq_refl, beq_true, nat_eq,
  string_eq, list_eq, option_eq, pair_eq,
}
use home_net_hub.JsMap.{JsMap, get, set}
use home_net_hub.Tsdb.{Stored, bucket_sec}
use home_net_hub.Tsdb.Tiers.{
  Series, Rollup, Tables, series_of, is_bucket_in, is_in_chunk, chunk_rows, slot_of, slots,
  slot_rows, raw_count, agg_count, rollup_of, put_bucket, put_buckets, insert_rollup, verify,
}
use home_net_hub.Tsdb.Counted.{Distinct, total, slots-Distinct, total-slots}
use home_net_hub.Tsdb.Purged.{put_bucket-other}

bucket_within :
    (k : Series) (i j b : ℕ)
    → i ≤ b
    → b < j
    → is_bucket_in k (i * bucket_sec) (j * bucket_sec) (k, b * bucket_sec) ≡ true
unfolding is_bucket_in
bucket_within k i j b low high = let e = beq_refl k in ground (arith, e, low, high)

module _ {V : Type 0} where
  -- No bucket of the series stands in the chunk.
  abbrev pub IsFresh : JsMap (Series × ℕ) (Rollup V) → Series → ℕ → ℕ → Type 0
  IsFresh agg k lo hi = All (λ (e : (Series × ℕ) × Rollup V). is_bucket_in k lo hi e.0 ≡ false) agg

  fresh-agg_count :
      (agg : JsMap (Series × ℕ) (Rollup V)) (k : Series) (lo hi : ℕ)
      → IsFresh agg k lo hi
      → agg_count agg k lo hi ≡ 0
  unfolding agg_count
  fresh-agg_count [] k lo hi f = refl
  fresh-agg_count ((b, r) ∷ agg) k lo hi f =
      let ih = fresh-agg_count agg k lo hi f.1 in let here = f.0 in ground (arith, ih, here)

  fresh-get :
      (agg : JsMap (Series × ℕ) (Rollup V)) (k : Series) (lo hi : ℕ) (key : Series × ℕ)
      → IsFresh agg k lo hi
      → is_bucket_in k lo hi key ≡ true
      → get agg key ≡ none
  unfolding get
  fresh-get [] k lo hi key f h = refl
  fresh-get ((b, r) ∷ agg) k lo hi key f h = elim (Bool-cases (b == key)) [
    | inl e ↦ absurd (cc (sym (ap (is_bucket_in k lo hi) (beq_true b key e) ∙ h) ∙ f.0))
    | inr e ↦ ap (λ x. if x then some r else get agg key) e ∙ fresh-get agg k lo hi key f.1 h
  ]

  agg_count-set :
      (agg : JsMap (Series × ℕ) (Rollup V)) (k : Series) (lo hi : ℕ) (key : Series × ℕ)
      (r : Rollup V)
      → get agg key ≡ none
      → is_bucket_in k lo hi key ≡ true
      → agg_count (set agg key r) k lo hi ≡ agg_count agg k lo hi + r.n
  unfolding agg_count get set
  agg_count-set [] k lo hi key r h i = ground (arith, i)
  agg_count-set ((b, w) ∷ agg) k lo hi key r h i = elim (Bool-cases (b == key)) [
    | inl e ↦ absurd (cc (sym (ap (λ x. if x then some w else get agg key) e) ∙ h))
    | inr e ↦
        let rest : get agg key ≡ none = sym (ap (λ x. if x then some w else get agg key) e) ∙ h in
        let ih = agg_count-set agg k lo hi key r rest i in
        subst
          (λ x.
            agg_count (if x then (key, r) ∷ agg else (b, w) ∷ set agg key r) k lo hi
            ≡ (if is_bucket_in k lo hi b then w.n else 0) + agg_count agg k lo hi + r.n)
          (sym e) (ground (arith, ih))
  ]

  pub slots-All :
      (P : ℕ → Type 0) (rows : List (Stored V))
      → All (λ (s : Stored V). P (slot_of s)) rows
      → All P (slots rows)
  unfolding slots
  slots-All P [] h = tt
  slots-All P (s ∷ rows) h =
      if-elim (All P) (any (nat_beq (slot_of s)) (slots rows)) (slots rows) (slot_of s ∷ slots rows)
        (λ _. slots-All P rows h.1) (λ _. (h.0, slots-All P rows h.1))

  slot_within :
      (k : Series) (s : Stored V) (i j : ℕ)
      → is_in_chunk k (i * bucket_sec) (j * bucket_sec) s ≡ true
      → (i ≤ slot_of s) × (slot_of s < j)
  unfolding is_in_chunk
  slot_within k s i j h =
      let left = series_of s == k && leb (i * bucket_sec) s.ts in
      let (inner, below) = and_true left (ltb s.ts (j * bucket_sec)) h in
      let (_, above) = and_true (series_of s == k) (leb (i * bucket_sec) s.ts) inner in
      (ground (arith, above), ground (arith, below))

  pub chunk_rows-All :
      (raw : List (Stored V)) (k : Series) (i j : ℕ)
      → All
          (λ (s : Stored V). (i ≤ slot_of s) × (slot_of s < j))
          (chunk_rows raw k (i * bucket_sec) (j * bucket_sec))
  unfolding is_in_chunk
  chunk_rows-All [] k i j = tt
  chunk_rows-All (s ∷ raw) k i j =
      let lo = i * bucket_sec in
      let hi = j * bucket_sec in
      let rest = select (is_in_chunk k lo hi) raw in
      if-elim (All (λ (x : Stored V). (i ≤ slot_of x) × (slot_of x < j))) (is_in_chunk k lo hi s)
        (s ∷ rest) rest (λ h. (slot_within k s i j h, chunk_rows-All raw k i j))
        (λ _. chunk_rows-All raw k i j)

module _ {V : Type 0} (less : V → V → Bool) (average : List V → V) where
  put_buckets-other :
      (agg : JsMap (Series × ℕ) (Rollup V)) (k : Series) (bs : List ℕ) (rows : List (Stored V))
      (b : ℕ)
      → any (nat_beq b) bs ≡ false
      → get (put_buckets less average agg k bs rows) (k, b * bucket_sec)
        ≡ get agg (k, b * bucket_sec)
  unfolding put_buckets
  put_buckets-other agg k [] rows b h = refl
  put_buckets-other agg k (c ∷ bs) rows b h =
      let split = or_false (nat_beq b c) (any (nat_beq b) bs) h in
      let ne : (k, c * bucket_sec) ≢ (k, b * bucket_sec) = λ e.
        let q = ap (λ (x : Series × ℕ). x.1) e in
        let p = split.0 in absurd (ground (arith, q, p)) in
      put_bucket-other less average (put_buckets less average agg k bs rows) k c (slot_rows c rows)
        (k, b * bucket_sec) ne
      ∙ put_buckets-other agg k bs rows b split.1

  put_bucket-agg_count :
      (agg : JsMap (Series × ℕ) (Rollup V)) (k : Series) (lo hi b : ℕ) (rows : List (Stored V))
      → get agg (k, b * bucket_sec) ≡ none
      → is_bucket_in k lo hi (k, b * bucket_sec) ≡ true
      → agg_count (put_bucket less average agg k b rows) k lo hi
        ≡ agg_count agg k lo hi + length rows
  unfolding put_bucket rollup_of
  put_bucket-agg_count agg k lo hi b [] h i = ground arith
  put_bucket-agg_count agg k lo hi b (s ∷ older) h i =
      agg_count-set agg k lo hi (k, b * bucket_sec) (rollup_of less average s older) h i

  put_buckets-agg_count :
      (agg : JsMap (Series × ℕ) (Rollup V)) (k : Series) (i j : ℕ) (bs : List ℕ)
      (rows : List (Stored V))
      → IsFresh agg k (i * bucket_sec) (j * bucket_sec)
      → Distinct bs
      → All (λ b. (i ≤ b) × (b < j)) bs
      → agg_count (put_buckets less average agg k bs rows) k (i * bucket_sec) (j * bucket_sec)
        ≡ total bs rows
  unfolding put_buckets
  put_buckets-agg_count agg k i j [] rows f d h =
      fresh-agg_count agg k (i * bucket_sec) (j * bucket_sec) f
  put_buckets-agg_count agg k i j (b ∷ bs) rows f (apart, d) ((low, high), h) =
      let lo = i * bucket_sec in
      let hi = j * bucket_sec in
      let within : is_bucket_in k lo hi (k, b * bucket_sec) ≡ true =
        bucket_within k i j b low high in
      let none_yet =
        put_buckets-other agg k bs rows b apart
        ∙ fresh-get agg k lo hi (k, b * bucket_sec) f within in
      let one =
        put_bucket-agg_count (put_buckets less average agg k bs rows) k lo hi b (slot_rows b rows)
          none_yet within in
      let ih = put_buckets-agg_count agg k i j bs rows f d h in ground (arith, one, ih)

  -- The check never fails on the buckets that were just written: where a chunk of whole buckets had
  -- no bucket of the series, the samples that its new buckets count are as many as its rows.
  pub verify-insert_rollup :
      (db : Tables V) (k : Series) (i j : ℕ)
      → IsFresh db.agg k (i * bucket_sec) (j * bucket_sec)
      → verify less average
          (insert_rollup less average db k (i * bucket_sec) (j * bucket_sec))
          k
          (i * bucket_sec)
          (j * bucket_sec)
        ≡ some (insert_rollup less average db k (i * bucket_sec) (j * bucket_sec))
  unfolding verify insert_rollup raw_count
  verify-insert_rollup db k i j f =
      let rows = chunk_rows db.raw k (i * bucket_sec) (j * bucket_sec) in
      let counted =
        put_buckets-agg_count db.agg k i j (slots rows) rows f (slots-Distinct rows)
          (slots-All (λ b. (i ≤ b) × (b < j)) rows (chunk_rows-All db.raw k i j))
        ∙ total-slots rows in
      let equal =
        (nat_beq_iff (length rows) (
            agg_count (put_buckets less average db.agg k (slots rows) rows) k (i * bucket_sec)
              (j * bucket_sec))).1
          (sym counted) in
      ap
        (λ b.
          if b
          then some (insert_rollup less average db k (i * bucket_sec) (j * bucket_sec))
          else none)
        equal
