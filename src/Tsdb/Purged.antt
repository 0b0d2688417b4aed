-- ===== src/Tsdb/Purged.antt =====
-- Purging a chunk (_purgeChunk of server/store/sqlite.js): every sample that it deletes is accounted
-- for by the bucket of its five minutes.
use home_net_hub.Prelude.{
  ℕ, ◌*◌, ◌≤◌, ◌<◌, ◌≡◌, refl, sym, ap, ◌∙◌, subst, ◌≢◌, inl, inr, Bool, true, Option, none, some,
  List, [], ◌∷◌, arith, nat_beq, nat_beq_iff, Bool-cases, Option-cases, if-elim, any, select, ◌==◌,
  nat_eq, string_eq, list_eq, option_eq, pair_eq, pair_beq_iff,
}
use home_net_hub.JsMap.{JsMap, get, get-set_self, get-set_ne}
use home_net_hub.Tsdb.{get, JsMap, Stored, bucket_sec}
use home_net_hub.Tsdb.Tiers.{
  purge_chunk, agg_count, raw_count, rollup_of, Rollup, verify, drop_verified, insert_rollup,
  put_bucket, purge_series, purge_one, put_buckets, Tables, Series, series_of, all_series,
  is_in_chunk, chunk_rows, slot_of, slots, slot_rows, delete_rows,
}

-- The rows of a series.
abbrev pub series_rows : {V : Type 0} → List (Stored V) → Series → List (Stored V)
series_rows raw k = select (λ s. series_of s == k) raw

module _ {V : Type 0} where
  slots-any :
      (b : ℕ) (rows older : List (Stored V)) (s : Stored V)
      → slot_rows b rows ≡ s ∷ older
      → any (nat_beq b) (slots rows) ≡ true
  unfolding slots
  slots-any b [] older s h = absurd (cc h)
  slots-any b (x ∷ rows) older s h =
      ground
        (arith, h, nat_beq_iff (slot_of x) b, nat_beq_iff b (slot_of x), slots-any b rows older s)

  all_series-any :
      (k : Series) (lo hi : ℕ) (raw older : List (Stored V)) (s : Stored V)
      → chunk_rows raw k lo hi ≡ s ∷ older
      → any (λ (j : Series). j == k) (all_series raw) ≡ true
  unfolding all_series is_in_chunk
  all_series-any k lo hi [] older s h = absurd (cc h)
  all_series-any k lo hi (x ∷ raw) older s h =
      ground (arith, h, all_series-any k lo hi raw older s, pair_beq_iff (series_of x) k)

  chunk-delete_self :
      (raw : List (Stored V)) (k : Series) (lo hi : ℕ)
      → chunk_rows (delete_rows raw k lo hi) k lo hi ≡ []
  unfolding delete_rows
  chunk-delete_self [] k lo hi = refl
  chunk-delete_self (x ∷ raw) k lo hi = ground (arith, chunk-delete_self raw k lo hi)

  chunk-delete_ne :
      (raw : List (Stored V)) (j k : Series) (lo hi : ℕ)
      → j ≢ k
      → chunk_rows (delete_rows raw j lo hi) k lo hi ≡ chunk_rows raw k lo hi
  unfolding delete_rows is_in_chunk
  chunk-delete_ne [] j k lo hi h = refl
  chunk-delete_ne (x ∷ raw) j k lo hi h = ground (
    arith,
    h,
    chunk-delete_ne raw j k lo hi h,
    pair_beq_iff (series_of x) j,
    pair_beq_iff (series_of x) k,
  )

  -- A whole slot lies in an aligned chunk or outside of it.
  slot-chunk :
      (raw : List (Stored V)) (k : Series) (i j b : ℕ)
      → i ≤ b
      → b < j
      → slot_rows b (chunk_rows raw k (i * bucket_sec) (j * bucket_sec))
        ≡ slot_rows b (series_rows raw k)
  unfolding is_in_chunk
  slot-chunk [] k i j b h h' = refl
  slot-chunk (x ∷ raw) k i j b h h' = ground (arith, h, h', slot-chunk raw k i j b h h')

module _ {V : Type 0} (less : V → V → Bool) (average : List V → V) where
  pub put_bucket-other :
      (agg : JsMap (Series × ℕ) (Rollup V)) (k : Series) (c : ℕ) (rows : List (Stored V))
      (key : Series × ℕ)
      → (k, c * bucket_sec) ≢ key
      → get (put_bucket less average agg k c rows) key ≡ get agg key
  unfolding put_bucket
  put_bucket-other agg k c [] key h = refl
  put_bucket-other agg k c (s ∷ older) key h =
      get-set_ne agg (k, c * bucket_sec) key (rollup_of less average s older) h

  put_bucket-some :
      (agg : JsMap (Series × ℕ) (Rollup V)) (k : Series) (b : ℕ) (rows older : List (Stored V))
      (s : Stored V)
      → rows ≡ s ∷ older
      → get (put_bucket less average agg k b rows) (k, b * bucket_sec)
        ≡ some (rollup_of less average s older)
  unfolding put_bucket
  put_bucket-some agg k b rows older s h =
      ap (λ rs. get (put_bucket less average agg k b rs) (k, b * bucket_sec)) h
      ∙ get-set_self agg (k, b * bucket_sec) (rollup_of less average s older)

  put_buckets-slot :
      (agg : JsMap (Series × ℕ) (Rollup V)) (k : Series) (bs : List ℕ)
      (rows older : List (Stored V)) (b : ℕ) (s : Stored V)
      → any (nat_beq b) bs ≡ true
      → slot_rows b rows ≡ s ∷ older
      → get (put_buckets less average agg k bs rows) (k, b * bucket_sec)
        ≡ some (rollup_of less average s older)
  unfolding put_buckets
  put_buckets-slot agg k [] rows older b s m h = absurd (cc m)
  put_buckets-slot agg k (c ∷ bs) rows older b s m h = elim (Bool-cases (nat_beq b c)) [
    | inl e ↦
        let same = (nat_beq_iff b c).0 e in
        subst
          (λ x.
            get
              (put_bucket less average (put_buckets less average agg k bs rows) k x
                (slot_rows x rows))
              (k, b * bucket_sec)
            ≡ some (rollup_of less average s older))
          same
          (put_bucket-some (put_buckets less average agg k bs rows) k b (slot_rows b rows) older s
            h)
    | inr e ↦
        put_bucket-other (put_buckets less average agg k bs rows) k c (slot_rows c rows)
          (k, b * bucket_sec)
          (λ same. ground (arith, e, nat_beq_iff b c, ap (λ (p : Series × ℕ). p.1) same))
        ∙ put_buckets-slot agg k bs rows older b s (ground (arith, m, e)) h
  ]

  put_buckets-series :
      (agg : JsMap (Series × ℕ) (Rollup V)) (j k : Series) (bs : List ℕ) (rows : List (Stored V))
      (t : ℕ)
      → j ≢ k
      → get (put_buckets less average agg j bs rows) (k, t) ≡ get agg (k, t)
  unfolding put_buckets
  put_buckets-series agg j k [] rows t h = refl
  put_buckets-series agg j k (c ∷ bs) rows t h =
      put_bucket-other (put_buckets less average agg j bs rows) j c (slot_rows c rows) (k, t)
        (λ e. h (ap (λ (p : Series × ℕ). p.0) e))
      ∙ put_buckets-series agg j k bs rows t h

  -- What one series of a purge leaves.
  record IsPurged (db db' : Tables V) (k : Series) (lo hi : ℕ) : Type 0 where
    raw : db'.raw ≡ delete_rows db.raw k lo hi
    agg : db'.agg ≡ (insert_rollup less average db k lo hi).agg

  verify-some :
      (db d : Tables V) (k : Series) (lo hi : ℕ)
      → verify less average db k lo hi ≡ some d
      → (d ≡ db) × (raw_count db.raw k lo hi ≡ agg_count db.agg k lo hi)
  unfolding verify
  verify-some db d k lo hi =
      if-elim
        (λ (o : Option (Tables V)).
          o ≡ some d → (d ≡ db) × (raw_count db.raw k lo hi ≡ agg_count db.agg k lo hi))
        (nat_beq (raw_count db.raw k lo hi) (agg_count db.agg k lo hi)) (some db) none
        (λ e h. (sym (cc h), (nat_beq_iff _ _).0 e)) (λ _ h. absurd (cc h))

  purge_one-IsPurged :
      (db db' : Tables V) (k : Series) (lo hi : ℕ)
      → purge_one less average db k lo hi ≡ some db'
      → IsPurged db db' k lo hi
  unfolding purge_one drop_verified insert_rollup
  purge_one-IsPurged db db' k lo hi h =
      let x = insert_rollup less average db k lo hi in
      elim (Option-cases (verify less average x k lo hi)) [
        | inl e ↦ absurd (cc (sym (ap (λ o. drop_verified less average o k lo hi) e) ∙ h))
        | inr (d, e) ↦
            let same : d ≡ x = (verify-some x d k lo hi e).0 in
            let left : record d { raw = delete_rows d.raw k lo hi } ≡ db' =
              cc (sym (ap (λ o. drop_verified less average o k lo hi) e) ∙ h) in
            record {
              raw =
                  sym (ap (λ (t : Tables V). t.raw) left)
                  ∙ ap (λ (t : Tables V). delete_rows t.raw k lo hi) same;
              agg = sym (ap (λ (t : Tables V). t.agg) left) ∙ ap (λ (t : Tables V). t.agg) same;
            }
      ]

  purge_series-cons :
      (db db' : Tables V) (k : Series) (ks : List Series) (lo hi : ℕ)
      → purge_series less average db (k ∷ ks) lo hi ≡ some db'
      → (db1 : Tables V) × (purge_one less average db k lo hi ≡ some db1)
        × (purge_series less average db1 ks lo hi ≡ some db')
  unfolding purge_series
  purge_series-cons db db' k ks lo hi h = elim (Option-cases (purge_one less average db k lo hi)) [
    | inl e ↦ ground (arith, e, h)
    | inr (db1, e) ↦ (db1, e, ground (arith, e, h))
  ]

  purge_one-gone :
      (db db1 : Tables V) (j k : Series) (lo hi t : ℕ)
      → IsPurged db db1 j lo hi
      → chunk_rows db.raw k lo hi ≡ []
      → (get db1.agg (k, t) ≡ get db.agg (k, t)) × (chunk_rows db1.raw k lo hi ≡ [])
  unfolding insert_rollup slots put_buckets
  purge_one-gone db db1 j k lo hi t p e = elim (Bool-cases (j == k)) [
    | inl same ↦
        let q : j ≡ k = (pair_beq_iff j k).0 same in
        let empty = ap (λ x. chunk_rows db.raw x lo hi) q ∙ e in
        (
          ap (λ m. get m (k, t))
              (p.agg ∙ ap (λ rows. put_buckets less average db.agg j (slots rows) rows) empty),
          ap (λ r. chunk_rows r k lo hi) p.raw
              ∙ subst (λ x. chunk_rows (delete_rows db.raw j lo hi) x lo hi ≡ []) q
                  (chunk-delete_self db.raw j lo hi),
        )
    | inr other ↦
        let ne : j ≢ k = λ x. cc (sym ((pair_beq_iff j k).1 x) ∙ other) in
        (
          ap (λ m. get m (k, t)) p.agg
              ∙ put_buckets-series db.agg j k (slots (chunk_rows db.raw j lo hi))
                  (chunk_rows db.raw j lo hi) t ne,
          ap (λ r. chunk_rows r k lo hi) p.raw ∙ chunk-delete_ne db.raw j k lo hi ne ∙ e,
        )
  ]

  -- A series with no rows left in the chunk is not touched again.
  purge_series-gone :
      (db db' : Tables V) (ks : List Series) (k : Series) (lo hi t : ℕ)
      → chunk_rows db.raw k lo hi ≡ []
      → purge_series less average db ks lo hi ≡ some db'
      → (get db'.agg (k, t) ≡ get db.agg (k, t)) × (chunk_rows db'.raw k lo hi ≡ [])
  unfolding purge_series
  purge_series-gone db db' [] k lo hi t e h =
      let same : db ≡ db' = cc h in
      (
        ap (λ (d : Tables V). get d.agg (k, t)) (sym same),
        ap (λ (d : Tables V). chunk_rows d.raw k lo hi) (sym same) ∙ e,
      )
  purge_series-gone db db' (j ∷ ks) k lo hi t e h =
      let (db1, one, rest) = purge_series-cons db db' j ks lo hi h in
      let p = purge_one-IsPurged db db1 j lo hi one in
      let (same, gone) = purge_one-gone db db1 j k lo hi t p e in
      let (later, cleared) = purge_series-gone db1 db' ks k lo hi t gone rest in
      (later ∙ same, cleared)

  purge_one-slot :
      (db db1 : Tables V) (k : Series) (lo hi b : ℕ) (s : Stored V) (older : List (Stored V))
      → IsPurged db db1 k lo hi
      → slot_rows b (chunk_rows db.raw k lo hi) ≡ s ∷ older
      → (get db1.agg (k, b * bucket_sec) ≡ some (rollup_of less average s older))
        × (chunk_rows db1.raw k lo hi ≡ [])
  unfolding insert_rollup
  purge_one-slot db db1 k lo hi b s older p h =
      let rows = chunk_rows db.raw k lo hi in
      (
        ap (λ m. get m (k, b * bucket_sec)) p.agg
            ∙ put_buckets-slot db.agg k (slots rows) rows older b s (slots-any b rows older s h) h,
        ap (λ r. chunk_rows r k lo hi) p.raw ∙ chunk-delete_self db.raw k lo hi,
      )

  purge_series-slot :
      (db db' : Tables V) (ks : List Series) (k : Series) (lo hi b : ℕ) (s : Stored V)
      (older : List (Stored V))
      → any (λ (j : Series). j == k) ks ≡ true
      → slot_rows b (chunk_rows db.raw k lo hi) ≡ s ∷ older
      → purge_series less average db ks lo hi ≡ some db'
      → (get db'.agg (k, b * bucket_sec) ≡ some (rollup_of less average s older))
        × (chunk_rows db'.raw k lo hi ≡ [])
  purge_series-slot db db' [] k lo hi b s older m e h = absurd (cc m)
  purge_series-slot db db' (j ∷ ks) k lo hi b s older m e h =
      let (db1, one, rest) = purge_series-cons db db' j ks lo hi h in
      let p = purge_one-IsPurged db db1 j lo hi one in
      elim (Bool-cases (j == k)) [
        | inl same ↦
            let q : j ≡ k = (pair_beq_iff j k).0 same in
            let (put, empty) =
              purge_one-slot db db1 k lo hi b s older (subst (λ x. IsPurged db db1 x lo hi) q p)
                e in
            let (later, cleared) =
              purge_series-gone db1 db' ks k lo hi (b * bucket_sec) empty rest in
            (later ∙ put, cleared)
        | inr other ↦
            let ne : j ≢ k = λ x. cc (sym ((pair_beq_iff j k).1 x) ∙ other) in
            purge_series-slot db1 db' ks k lo hi b s older (ground (arith, m, other))
              (ap (λ r. slot_rows b (chunk_rows r k lo hi)) p.raw
                ∙ ap (slot_rows b) (chunk-delete_ne db.raw j k lo hi ne)
                ∙ e)
              rest
      ]

  slot_rows-cons :
      (rows older : List (Stored V)) (b : ℕ) (s : Stored V)
      → slot_rows b rows ≡ s ∷ older
      → (x : Stored V) × (xs : List (Stored V)) × (rows ≡ x ∷ xs)
  slot_rows-cons [] older b s h = absurd (cc h)
  slot_rows-cons (x ∷ xs) older b s h = (x, xs, refl)

  -- When a chunk of whole buckets is purged, every sample that it takes out of the raw tier is
  -- accounted for in the other: the samples that a series had in any five minutes of the chunk,
  -- all of them, are gone, and the bucket of those five minutes has their number, their extremes,
  -- each with its time, and their average.
  pub purge_chunk-slot :
      (db db' : Tables V) (k : Series) (i j b : ℕ) (s : Stored V) (older : List (Stored V))
      → i ≤ b
      → b < j
      → slot_rows b (series_rows db.raw k) ≡ s ∷ older
      → purge_chunk less average db (i * bucket_sec) (j * bucket_sec) ≡ some db'
      → (get db'.agg (k, b * bucket_sec) ≡ some (rollup_of less average s older))
        × (slot_rows b (series_rows db'.raw k) ≡ [])
  unfolding purge_chunk
  purge_chunk-slot db db' k i j b s older low high e h =
      let lo = i * bucket_sec in
      let hi = j * bucket_sec in
      let whole = slot-chunk db.raw k i j b low high ∙ e in
      let (x, xs, some_rows) = slot_rows-cons (chunk_rows db.raw k lo hi) older b s whole in
      let (put, cleared) =
        purge_series-slot db db' (all_series db.raw) k lo hi b s older
          (all_series-any k lo hi db.raw xs x some_rows) whole h in
      (put, sym (slot-chunk db'.raw k i j b low high) ∙ ap (slot_rows b) cleared)
