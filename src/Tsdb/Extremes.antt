-- ===== src/Tsdb/Extremes.antt =====
-- What a bucket of server/store/sqlite.js says of its samples, and that purging keeps it.
use home_net_hub.Prelude.{
  ℕ, ◌*◌, ◌≤◌, ◌<◌, ◌≡◌, refl, sym, ◌∙◌, Bool, true, false, some, List, [], ◌∷◌, map, if-elim,
  length, All, All-map, nat_eq, string_eq, list_eq, option_eq, pair_eq,
}
use mathlib.Core.List.{Memᴰ}
use home_net_hub.JsMap.{get}
use home_net_hub.Tsdb.{Stored, bucket_sec}
use home_net_hub.Tsdb.Tiers.{
  Series, Rollup, Tables, min_row, max_row, rollup_of, slot_rows, purge_chunk,
}
use home_net_hub.Tsdb.Purged.{series_rows, purge_chunk-slot}

-- The number of the samples, their average, and of both extremes the value with the time of a sample
-- that has it, and that no sample is beyond it.
pub record IsRollup {V : Type 0} (less : V → V → Bool) (average : List V → V)
    (rows : List (Stored V)) (r : Rollup V) : Type 0 where
  pub counted : r.n ≡ length rows
  pub averaged : r.vavg ≡ average (map (λ (x : Stored V). x.value) rows)
  pub lowest : (x : Stored V) × Memᴰ x rows × (x.ts ≡ r.tmin) × (x.value ≡ r.vmin)
  pub least : All (λ (x : Stored V). less x.value r.vmin ≡ false) rows
  pub highest : (x : Stored V) × Memᴰ x rows × (x.ts ≡ r.tmax) × (x.value ≡ r.vmax)
  pub greatest : All (λ (x : Stored V). less r.vmax x.value ≡ false) rows

not_true : (b : Bool) → (b ≡ true → b ≡ false) → b ≡ false
not_true true h = h refl
not_true false h = refl

module _ {V : Type 0} (less : V → V → Bool) (average : List V → V)
    (irrefl : (a : V) → less a a ≡ false)
    (trans : (a b c : V) → less a b ≡ true → less b c ≡ true → less a c ≡ true) where
  min_row-Memᴰ :
      (s : Stored V) (older : List (Stored V)) → Memᴰ (min_row less average s older) (s ∷ older)
  unfolding min_row
  min_row-Memᴰ s [] = Memᴰ.head refl
  min_row-Memᴰ s (o ∷ older) =
      let m = min_row less average o older in
      if-elim (λ x. Memᴰ x (s ∷ o ∷ older)) (less s.value m.value) s m (λ _. Memᴰ.head refl)
        (λ _. Memᴰ.tail (min_row-Memᴰ o older))

  min_row-least :
      (s : Stored V) (older : List (Stored V))
      → All
          (λ (x : Stored V). less x.value (min_row less average s older).value ≡ false)
          (s ∷ older)
  unfolding min_row
  min_row-least s [] = (irrefl s.value, tt)
  min_row-least s (o ∷ older) =
      let m = min_row less average o older in
      if-elim
        (λ (w : Stored V). All (λ (x : Stored V). less x.value w.value ≡ false) (s ∷ o ∷ older))
        (less s.value m.value) s m
        (λ b. (
          irrefl s.value,
          All-map _ (λ (x : Stored V). less x.value s.value ≡ false) (o ∷ older)
              (λ x h.
                not_true (less x.value s.value)
                  (λ t. absurd (cc (sym h ∙ trans x.value s.value m.value t b))))
              (min_row-least o older),
        ))
        (λ b. (b, min_row-least o older))

  max_row-Memᴰ :
      (s : Stored V) (older : List (Stored V)) → Memᴰ (max_row less average s older) (s ∷ older)
  unfolding max_row
  max_row-Memᴰ s [] = Memᴰ.head refl
  max_row-Memᴰ s (o ∷ older) =
      let m = max_row less average o older in
      if-elim (λ x. Memᴰ x (s ∷ o ∷ older)) (less m.value s.value) s m (λ _. Memᴰ.head refl)
        (λ _. Memᴰ.tail (max_row-Memᴰ o older))

  max_row-greatest :
      (s : Stored V) (older : List (Stored V))
      → All
          (λ (x : Stored V). less (max_row less average s older).value x.value ≡ false)
          (s ∷ older)
  unfolding max_row
  max_row-greatest s [] = (irrefl s.value, tt)
  max_row-greatest s (o ∷ older) =
      let m = max_row less average o older in
      if-elim
        (λ (w : Stored V). All (λ (x : Stored V). less w.value x.value ≡ false) (s ∷ o ∷ older))
        (less m.value s.value) s m
        (λ b. (
          irrefl s.value,
          All-map _ (λ (x : Stored V). less s.value x.value ≡ false) (o ∷ older)
              (λ x h.
                not_true (less s.value x.value)
                  (λ t. absurd (cc (sym h ∙ trans m.value s.value x.value b t))))
              (max_row-greatest o older),
        ))
        (λ b. (b, max_row-greatest o older))

  rollup_of-IsRollup :
      (s : Stored V) (older : List (Stored V))
      → IsRollup less average (s ∷ older) (rollup_of less average s older)
  unfolding rollup_of
  rollup_of-IsRollup s older = record {
    counted = refl;
    averaged = refl;
    lowest = (min_row less average s older, min_row-Memᴰ s older, refl, refl);
    least = min_row-least s older;
    highest = (max_row less average s older, max_row-Memᴰ s older, refl, refl);
    greatest = max_row-greatest s older;
  }

  -- When a chunk of whole buckets is purged, every sample that it takes out of the raw tier is
  -- accounted for in the other: the samples that a series had in any five minutes of the chunk
  -- are gone, all of them, and the bucket of those five minutes has their number, their
  -- average, and their extremes, each with the time of a sample that has it and no sample
  -- beyond it, where `less` is irreflexive and transitive.
  pub purge_chunk-IsRollup :
      (db db' : Tables V) (k : Series) (i j b : ℕ) (s : Stored V) (older : List (Stored V))
      → i ≤ b
      → b < j
      → slot_rows b (series_rows db.raw k) ≡ s ∷ older
      → purge_chunk less average db (i * bucket_sec) (j * bucket_sec) ≡ some db'
      → ((r : Rollup V) × (get db'.agg (k, b * bucket_sec) ≡ some r)
          × IsRollup less average (s ∷ older) r)
        × (slot_rows b (series_rows db'.raw k) ≡ [])
  purge_chunk-IsRollup db db' k i j b s older low high rows h =
      let (put, cleared) = purge_chunk-slot less average db db' k i j b s older low high rows h in
      ((rollup_of less average s older, put, rollup_of-IsRollup s older), cleared)
