-- ===== src/Tsdb/Aggregated.antt =====
-- Aggregating a chunk (_aggChunk of server/store/sqlite.js) above all buckets: no check fails.
use home_net_hub.Prelude.{
  ℕ, ◌*◌, ◌≤◌, ◌<◌, ◌≡◌, refl, sym, ap, ◌∙◌, Bool, false, Option, none, some, List, [], ◌∷◌, arith,
  or_false, if-elim, any, All, All-map, All-intro, ◌==◌, beq_refl, beq_ne, nat_eq, string_eq,
  list_eq, option_eq, pair_eq,
}
use home_net_hub.JsMap.{JsMap, set}
use home_net_hub.Tsdb.{Stored, bucket_sec}
use home_net_hub.Tsdb.Tiers.{
  Series, Rollup, Tables, series_of, all_series, is_bucket_in, chunk_rows, slots, slot_rows,
  rollup_of, put_bucket, put_buckets, insert_rollup, agg_series, agg_chunk,
}
use home_net_hub.Tsdb.Verified.{IsFresh, verify-insert_rollup, chunk_rows-All, slots-All}

-- Every bucket starts below a time.
abbrev pub IsBelow : {V : Type 0} → ℕ → JsMap (Series × ℕ) (Rollup V) → Type 0
IsBelow {V} t agg = All (λ (e : (Series × ℕ) × Rollup V). e.0.1 < t) agg

abbrev pub Differ : List Series → Type 0
Differ [] = Unit
Differ (k ∷ ks) = All (λ (j : Series). (j == k) ≡ false) ks × Differ ks

any-All : {A : Type 0} (p : A → Bool) (xs : List A) → any p xs ≡ false → All (λ x. p x ≡ false) xs
any-All p [] h = tt
any-All p (x ∷ xs) h = let split = or_false (p x) (any p xs) h in (split.0, any-All p xs split.1)

All-both :
    {A : Type 0} (P Q : A → Type 0) (xs : List A) → All P xs → All Q xs → All (λ x. P x × Q x) xs
All-both P Q [] p q = tt
All-both P Q (x ∷ xs) p q = ((p.0, q.0), All-both P Q xs p.1 q.1)

out_of : (k : Series) (lo hi : ℕ) (key : Series × ℕ) → key.1 < lo → is_bucket_in k lo hi key ≡ false
unfolding is_bucket_in
out_of k lo hi key h = ground (arith, h)

other_bucket :
    (k other : Series) (lo hi t : ℕ)
    → (other == k) ≡ false
    → is_bucket_in other lo hi (k, t) ≡ false
unfolding is_bucket_in
other_bucket k other lo hi t ne =
    let ne' : (k == other) ≡ false =
      beq_ne k other (λ q. absurd (cc (sym ne ∙ ap (λ x. other == x) q ∙ beq_refl other))) in
    ground (arith, ne')

module _ {V : Type 0} where
  set-All :
      (P : (Series × ℕ) × Rollup V → Type 0) (agg : JsMap (Series × ℕ) (Rollup V))
      (key : Series × ℕ) (r : Rollup V)
      → All P agg
      → P (key, r)
      → All P (set agg key r)
  unfolding set
  set-All P [] key r h p = (p, tt)
  set-All P ((b, w) ∷ agg) key r h p =
      if-elim (All P) (b == key) ((key, r) ∷ agg) ((b, w) ∷ set agg key r) (λ _. (p, h.1))
        (λ _. (h.0, set-All P agg key r h.1 p))

  below-IsFresh :
      (agg : JsMap (Series × ℕ) (Rollup V)) (k : Series) (lo hi : ℕ)
      → IsBelow lo agg
      → IsFresh agg k lo hi
  unfolding is_bucket_in
  below-IsFresh agg k lo hi h = All-map _ _ agg (λ e below. out_of k lo hi e.0 below) h

  all_series-Differ : (raw : List (Stored V)) → Differ (all_series raw)
  unfolding all_series
  all_series-Differ [] = tt
  all_series-Differ (s ∷ raw) =
      let rest = all_series raw in
      if-elim Differ (any (λ (k : Series). k == series_of s) rest) rest (series_of s ∷ rest)
        (λ _. all_series-Differ raw)
        (λ b. (any-All (λ (k : Series). k == series_of s) rest b, all_series-Differ raw))

module _ {V : Type 0} (less : V → V → Bool) (average : List V → V) where
  put_bucket-All :
      (P : (Series × ℕ) × Rollup V → Type 0) (agg : JsMap (Series × ℕ) (Rollup V)) (k : Series)
      (b : ℕ) (rows : List (Stored V))
      → All P agg
      → ((r : Rollup V) → P ((k, b * bucket_sec), r))
      → All P (put_bucket less average agg k b rows)
  unfolding put_bucket
  put_bucket-All P agg k b [] h p = h
  put_bucket-All P agg k b (s ∷ older) h p =
      set-All P agg (k, b * bucket_sec) (rollup_of less average s older) h
        (p (rollup_of less average s older))

  put_buckets-All :
      (P : (Series × ℕ) × Rollup V → Type 0) (agg : JsMap (Series × ℕ) (Rollup V)) (k : Series)
      (bs : List ℕ) (rows : List (Stored V))
      → All P agg
      → All (λ b. (r : Rollup V) → P ((k, b * bucket_sec), r)) bs
      → All P (put_buckets less average agg k bs rows)
  unfolding put_buckets
  put_buckets-All P agg k [] rows h p = h
  put_buckets-All P agg k (b ∷ bs) rows h p =
      put_bucket-All P (put_buckets less average agg k bs rows) k b (slot_rows b rows)
        (put_buckets-All P agg k bs rows h p.1) p.0

  insert_rollup-IsBelow :
      (db : Tables V) (k : Series) (i j : ℕ)
      → IsBelow (j * bucket_sec) db.agg
      → IsBelow
          (j * bucket_sec)
          (insert_rollup less average db k (i * bucket_sec) (j * bucket_sec)).agg
  unfolding insert_rollup
  insert_rollup-IsBelow db k i j h =
      let rows = chunk_rows db.raw k (i * bucket_sec) (j * bucket_sec) in
      put_buckets-All (λ e. e.0.1 < j * bucket_sec) db.agg k (slots rows) rows h
        (All-map (λ b. (i ≤ b) × (b < j)) _ (slots rows) (λ b w r. let x = w.1 in ground (arith, x))
          (slots-All (λ b. (i ≤ b) × (b < j)) rows (chunk_rows-All db.raw k i j)))

  insert_rollup-IsFresh :
      (db : Tables V) (k other : Series) (lo hi : ℕ)
      → (other == k) ≡ false
      → IsFresh db.agg other lo hi
      → IsFresh (insert_rollup less average db k lo hi).agg other lo hi
  unfolding insert_rollup
  insert_rollup-IsFresh db k other lo hi ne h =
      let rows = chunk_rows db.raw k lo hi in
      put_buckets-All (λ e. is_bucket_in other lo hi e.0 ≡ false) db.agg k (slots rows) rows h
        (All-intro _ (slots rows) (λ b r. other_bucket k other lo hi (b * bucket_sec) ne))

  agg_series-some :
      (db : Tables V) (ks : List Series) (i j : ℕ)
      → Differ ks
      → All (λ k. IsFresh db.agg k (i * bucket_sec) (j * bucket_sec)) ks
      → IsBelow (j * bucket_sec) db.agg
      → (db' : Tables V) × (agg_series less average db ks (i * bucket_sec) (j * bucket_sec)
          ≡ some db')
        × IsBelow (j * bucket_sec) db'.agg
  unfolding agg_series
  agg_series-some db [] i j d f below = (db, refl, below)
  agg_series-some db (k ∷ ks) i j (apart, d) (fresh, f) below =
      let lo = i * bucket_sec in
      let hi = j * bucket_sec in
      let db1 = insert_rollup less average db k lo hi in
      let next : Option (Tables V) → Option (Tables V) =
        λ o. elim o [ none ↦ none | some x ↦ agg_series less average x ks lo hi ] in
      let (db', rest, done) =
        agg_series-some db1 ks i j d
          (All-map (λ (o : Series). ((o == k) ≡ false) × IsFresh db.agg o lo hi) _ ks
            (λ o p. insert_rollup-IsFresh db k o lo hi p.0 p.1) (All-both _ _ ks apart f))
          (insert_rollup-IsBelow db k i j below) in
      (db', ap next (verify-insert_rollup less average db k i j fresh) ∙ rest, done)

  -- Where every bucket starts below the chunk, aggregating the chunk does not throw, and every bucket
  -- then starts below its end.
  pub agg_chunk-some :
      (db : Tables V) (i j : ℕ)
      → i ≤ j
      → IsBelow (i * bucket_sec) db.agg
      → (db' : Tables V) × (agg_chunk less average db (i * bucket_sec) (j * bucket_sec) ≡ some db')
        × IsBelow (j * bucket_sec) db'.agg
  unfolding agg_chunk
  agg_chunk-some db i j le below =
      agg_series-some db (all_series db.raw) i j (all_series-Differ db.raw)
        (All-intro _ (all_series db.raw)
          (λ k. below-IsFresh db.agg k (i * bucket_sec) (j * bucket_sec) below))
        (All-map _ _ db.agg (λ e h. ground (arith, h, le)) below)
