-- ===== src/Tsdb/Dropped.antt =====
-- Dropping a chunk (_dropChunk of server/store/sqlite.js), which goes through the series one by one.
use home_net_hub.Prelude.{
  ℕ, ◌≡◌, refl, sym, ap, ◌∙◌, inl, inr, Bool, true, false, not, ◌&&◌, ◌||◌, List, [], ◌∷◌, arith,
  ltb, leb, if◌then◌else◌, Bool-cases, if-elim, any, select, All, All-map, All-intro, ◌==◌,
  beq_refl, beq_true, nat_eq, string_eq, list_eq, option_eq, pair_eq,
}
use home_net_hub.Tsdb.{Stored}
use home_net_hub.Tsdb.Tiers.{
  Series, Tables, series_of, all_series, is_in_chunk, delete_rows, drop_series, drop_chunk,
}

select-select :
    {A : Type 0} (p q : A → Bool) (xs : List A)
    → select p (select q xs) ≡ select (λ x. q x && p x) xs
select-select p q [] = refl
select-select p q (x ∷ xs) = ground (arith, select-select p q xs)

select_ext :
    {A : Type 0} (p q : A → Bool) (xs : List A)
    → All (λ x. p x ≡ q x) xs
    → select p xs ≡ select q xs
select_ext p q [] same = refl
select_ext p q (x ∷ xs) same =
    let ih = select_ext p q xs same.1 in let here = same.0 in ground (arith, ih, here)

select_same : {A : Type 0} (p : A → Bool) (xs : List A) → ((x : A) → p x ≡ true) → select p xs ≡ xs
select_same p [] h = refl
select_same p (x ∷ xs) h =
    let ih = select_same p xs h in
    let here = h x in ap (λ b. if b then x ∷ select p xs else select p xs) here ∙ ap (λ l. x ∷ l) ih

two_in_one :
    (e a l t : Bool) → (not (e && l && t) && not (a && (l && t))) ≡ not ((e || a) && (l && t))
two_in_one true true l t = ground arith
two_in_one true false l t = ground arith
two_in_one false a l t = ground arith

beq_sym : (a b : Series) → (a == b) ≡ (b == a)
beq_sym a b = elim (Bool-cases (a == b)) [
  | inl h ↦ h ∙ sym (ap (λ x. x == a) (sym (beq_true a b h)) ∙ beq_refl a)
  | inr h ↦ elim (Bool-cases (b == a)) [
    | inl g ↦ absurd (cc (sym h ∙ ap (λ x. a == x) (beq_true b a g) ∙ beq_refl a))
    | inr g ↦ h ∙ sym g
  ]
]

or_true : (a b : Bool) → b ≡ true → (a || b) ≡ true
or_true a b h = ground (arith, h)

any_flip : (x : Series) (ks : List Series) → any (λ k. k == x) ks ≡ any (λ k. x == k) ks
any_flip x [] = refl
any_flip x (k ∷ ks) =
    let ih = any_flip x ks in
    let here = beq_sym k x in ap (λ b. b || any (λ j. j == x) ks) here ∙ ap (λ b. (x == k) || b) ih

module _ {V : Type 0} where
  -- WHERE ts >= lo AND ts < hi
  abbrev pub is_between : ℕ → ℕ → Stored V → Bool
  is_between lo hi s = leb lo s.ts && ltb s.ts hi

  drop_series-select :
      (ks : List Series) (raw : List (Stored V)) (lo hi : ℕ)
      → drop_series raw ks lo hi
        ≡ select (λ s. not (any (λ (k : Series). series_of s == k) ks && is_between lo hi s)) raw
  unfolding drop_series delete_rows is_in_chunk
  drop_series-select [] raw lo hi = sym (select_same _ raw (λ s. refl))
  drop_series-select (k ∷ ks) raw lo hi =
      drop_series-select ks (delete_rows raw k lo hi) lo hi
      ∙ select-select (λ s. not (any (λ (j : Series). series_of s == j) ks && is_between lo hi s))
          (λ s. not (is_in_chunk k lo hi s)) raw
      ∙ select_ext _ _ raw (
          All-intro _ raw (λ s.
            two_in_one (series_of s == k) (any (λ (j : Series). series_of s == j) ks) (leb lo s.ts)
              (ltb s.ts hi)))

  all_series-every :
      (raw : List (Stored V))
      → All (λ (s : Stored V). any (λ (k : Series). series_of s == k) (all_series raw) ≡ true) raw
  unfolding all_series
  all_series-every [] = tt
  all_series-every (s ∷ raw) =
      let rest = all_series raw in
      let seen = any (λ (k : Series). k == series_of s) rest in
      let all_of : List Series = if seen then rest else series_of s ∷ rest in
      (
        if-elim (λ ks. any (λ (k : Series). series_of s == k) ks ≡ true) seen rest
            (series_of s ∷ rest) (λ b. sym (any_flip (series_of s) rest) ∙ b)
            (λ _.
              ap (λ b. b || any (λ (k : Series). series_of s == k) rest) (beq_refl (series_of s))),
        All-map (λ (x : Stored V). any (λ (k : Series). series_of x == k) rest ≡ true)
            (λ (x : Stored V). any (λ (k : Series). series_of x == k) all_of ≡ true) raw
            (λ x h.
              if-elim (λ ks. any (λ (k : Series). series_of x == k) ks ≡ true) seen rest
                (series_of s ∷ rest) (λ _. h)
                (λ _.
                  or_true (series_of x == series_of s) (any (λ (k : Series). series_of x == k) rest)
                    h))
            (all_series-every raw),
      )

  -- Dropping a chunk series by series, over the series found in the table, takes out what one delete
  -- by time takes out: the rows of the chunk, all of them and no others; the buckets stay.
  pub drop_chunk-select :
      (db : Tables V) (lo hi : ℕ)
      → ((drop_chunk db lo hi).raw ≡ select (λ s. not (is_between lo hi s)) db.raw)
        × ((drop_chunk db lo hi).agg ≡ db.agg)
  unfolding drop_chunk
  drop_chunk-select db lo hi = (
    drop_series-select (all_series db.raw) db.raw lo hi
        ∙ select_ext _ _ db.raw (
            All-map
              (λ (s : Stored V). any (λ (k : Series). series_of s == k) (all_series db.raw) ≡ true)
              _ db.raw (λ s h. ap (λ b. not (b && is_between lo hi s)) h)
              (all_series-every db.raw)),
    refl,
  )
