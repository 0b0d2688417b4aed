-- ===== src/Tsdb/Points.antt =====
-- What the read side of server/store/sqlite.js returns: how many points, and in which order.
use home_net_hub.Prelude.{
  ℕ, ◌+◌, ◌-◌, ◌*◌, ◌/◌, ◌≤◌, ◌<◌, max, ◌≡◌, subst, ◌⊎◌, inl, inr, Bool, List, [], ◌∷◌, ◌++◌, arith,
  ltb, leb, if◌then◌else◌, leb→le, Bool-cases, if-elim, length, length-append, nat_eq, string_eq,
  list_eq, option_eq,
}
use home_net_hub.Tsdb.{Bucket, points_of, expand, bucket_width, max_buckets, downsample_sec}

-- The width is more than the spacing of the samples, and 250 buckets of it hold the window; or it is
-- 0, and the window holds no more samples, five seconds apart, than 1250 seconds do.
pub bucket_width_lem :
    (now since : ℕ)
    → since < now
    → let w = bucket_width now since in
      ((w ≡ 0) × (now - since ≤ max_buckets * downsample_sec))
      ⊎ ((downsample_sec < w) × (now - since ≤ max_buckets * w))
unfolding bucket_width
bucket_width_lem now since h =
    elim (Bool-cases (ltb downsample_sec ((max 1 (now - since) + 249) / max_buckets))) [
      | inl e ↦ inr (ground (arith, e), ground (arith, e))
      | inr e ↦ inl (ground (arith, e), ground (arith, e))
    ]

module _ {V : Type 0} (same : V → V → Bool) where
  length-points_of : (b : Bucket V) → length (points_of same b) ≤ 2
  unfolding points_of
  length-points_of b = ground arith

  -- At most two points for each bucket.
  pub length-expand : (bs : List (Bucket V)) → length (expand same bs) ≤ 2 * length bs
  unfolding expand
  length-expand [] = omega arith
  length-expand (b ∷ bs) = omega (
    arith,
    length-append (points_of same b) (expand same bs),
    length-points_of b,
    length-expand bs,
  )

  -- Times that do not fall, from `t` on.
  abbrev pub Ordered : ℕ → List (ℕ × V) → Type 0
  Ordered t [] = Unit
  Ordered t (p ∷ ps) = (t ≤ p.0) × Ordered p.0 ps

  -- Buckets one after another: the extremes of each are not before those of the one before.
  abbrev pub InOrder : ℕ → List (Bucket V) → Type 0
  InOrder t [] = Unit
  InOrder t (b ∷ bs) = (t ≤ b.tmin) × (t ≤ b.tmax) × InOrder (max b.tmin b.tmax) bs

  InOrder-weaker : (t u : ℕ) (bs : List (Bucket V)) → u ≤ t → InOrder t bs → InOrder u bs
  InOrder-weaker t u [] h o = tt
  InOrder-weaker t u (b ∷ bs) h o = (omega (arith, h, o.0), omega (arith, h, o.1), o.2)

  points-Ordered :
      (t : ℕ) (b : Bucket V) (rest : List (ℕ × V))
      → t ≤ b.tmin
      → t ≤ b.tmax
      → Ordered b.tmin rest
      → Ordered (max b.tmin b.tmax) rest
      → Ordered t (points_of same b ++ rest)
  unfolding points_of
  points-Ordered t b rest h h' low high =
      if-elim (λ ps. Ordered t (ps ++ rest)) (same b.vmin b.vmax) ((b.tmin, b.vmin) ∷ [])
        (if leb b.tmin b.tmax
          then (b.tmin, b.vmin) ∷ (b.tmax, b.vmax) ∷ []
          else (b.tmax, b.vmax) ∷ (b.tmin, b.vmin) ∷ [])
        (λ _. (h, low))
        (λ _.
          if-elim (λ ps. Ordered t (ps ++ rest)) (leb b.tmin b.tmax)
            ((b.tmin, b.vmin) ∷ (b.tmax, b.vmax) ∷ []) ((b.tmax, b.vmax) ∷ (b.tmin, b.vmin) ∷ [])
            (λ e.
              (h, (leb→le b.tmin b.tmax e, subst (λ x. Ordered x rest) (ground (arith, e)) high)))
            (λ e. (h', (ground (arith, e), low))))

  -- The points come in the order of their times, where the buckets do, with each extreme at the
  -- time it really had.
  pub expand-Ordered : (t : ℕ) (bs : List (Bucket V)) → InOrder t bs → Ordered t (expand same bs)
  unfolding expand
  expand-Ordered t [] o = tt
  expand-Ordered t (b ∷ bs) o =
      points-Ordered t b (expand same bs) o.0 o.1
        (expand-Ordered b.tmin bs (InOrder-weaker (max b.tmin b.tmax) b.tmin bs (omega arith) o.2))
        (expand-Ordered (max b.tmin b.tmax) bs o.2)
