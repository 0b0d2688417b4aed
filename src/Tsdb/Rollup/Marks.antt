-- ===== src/Tsdb/Rollup/Marks.antt =====
-- The order of the two watermarks of server/store/sqlite.js, from the first row and through a restart.
use home_net_hub.Prelude.{
  ℕ, zero, suc, ◌+◌, ◌*◌, ◌/◌, ◌≤◌, ◌<◌, min, ◌≡◌, refl, sym, ap, ◌∙◌, subst, ◌⊎◌, inl, inr, Option,
  none, some, arith, nat_beq, if◌then◌else◌, if-elim, get_or, nat_eq, string_eq, list_eq, option_eq,
  pair_eq,
}
use home_net_hub.Tsdb.{bucket_sec}
use home_net_hub.Tsdb.Rollup.{Tiered, Run, align, oldest, reopen, seed_at, failed, chunk_sec}

abbrev pub IsAligned : ℕ → Type 0
IsAligned t = (q : ℕ) × (t ≡ q * bucket_sec)

-- What the database keeps of a watermark is the watermark itself, or nothing yet.
abbrev pub IsSaved : Option ℕ → ℕ → Type 0
IsSaved saved mark = (saved ≡ none) ⊎ ((saved ≡ some mark) × (0 < mark))

-- Both watermarks stand between two buckets, nothing is purged that is not aggregated, the database
-- has what the memory has, and while it has nothing the two watermarks are one.
pub record IsMarked {V : Type 0} (db : Tiered V) : Type 0 where
  pub agg_aligned : IsAligned db.agg_wm
  pub purge_aligned : IsAligned db.purge_wm
  pub ordered : db.purge_wm ≤ db.agg_wm
  pub agg_saved : IsSaved db.saved_agg db.agg_wm
  pub purge_saved : IsSaved db.saved_purge db.purge_wm
  pub unsaved : db.saved_agg ≡ none → (db.saved_purge ≡ none) × (db.purge_wm ≡ db.agg_wm)

pub align-IsAligned : (t : ℕ) → IsAligned (align t)
unfolding align
align-IsAligned t = (t / bucket_sec, refl)

pub min-IsAligned : (a b : ℕ) → IsAligned a → IsAligned b → IsAligned (min a b)
min-IsAligned a b (p, x) (q, y) = (min p q, ground (arith, x, y))

-- The end of a chunk.
pub chunk_end-IsAligned :
    (lo target : ℕ) → IsAligned lo → IsAligned target → IsAligned (min (lo + chunk_sec) target)
chunk_end-IsAligned lo target (p, a) (q, b) = (min (p + 12) q, ground (arith, a, b))

seeded-IsSaved :
    (saved : Option ℕ) (mark t : ℕ)
    → IsSaved saved mark
    → IsSaved saved (if nat_beq mark 0 then align t else mark)
seeded-IsSaved saved mark t (inl e) = inl e
seeded-IsSaved saved mark t (inr (e, pos)) =
    let same : (if nat_beq mark 0 then align t else mark) ≡ mark = ground (arith, pos) in
    subst (IsSaved saved) (sym same) (inr (e, pos))

seeded_le :
    (p a t : ℕ)
    → p ≤ a
    → (p ≡ 0 → 0 < a → align t ≤ a)
    → (if nat_beq p 0 then align t else p) ≤ (if nat_beq a 0 then align t else a)
seeded_le p zero t le below =
    let nothing : p ≡ 0 = ground (arith, le) in
    subst (λ x. (if nat_beq x 0 then align t else x) ≤ align t) (sym nothing) (ground arith)
seeded_le zero (suc a) t le below = let b = below refl (ground arith) in ground (arith, b)
seeded_le (suc p) (suc a) t le below = ground (arith, le)

reopened-IsSaved :
    (saved : Option ℕ) (mark : ℕ) → IsSaved saved mark → IsSaved saved (get_or saved 0)
reopened-IsSaved none mark s = inl refl
reopened-IsSaved (some x) mark (inl e) = absurd (cc e)
reopened-IsSaved (some x) mark (inr (e, pos)) =
    let same : x ≡ mark = cc e in inr (refl, subst (λ y. 0 < y) (sym same) pos)

reopened-IsAligned :
    (saved : Option ℕ) (mark : ℕ) → IsSaved saved mark → IsAligned mark → IsAligned (get_or saved 0)
reopened-IsAligned none mark s al = (0, refl)
reopened-IsAligned (some x) mark (inl e) al = absurd (cc e)
reopened-IsAligned (some x) mark (inr (e, pos)) al =
    let same : x ≡ mark = cc e in subst IsAligned (sym same) al

reopened_le :
    (p a : Option ℕ) (pm am : ℕ)
    → IsSaved p pm
    → IsSaved a am
    → (a ≡ none → p ≡ none)
    → pm ≤ am
    → get_or p 0 ≤ get_or a 0
reopened_le none a pm am sp sa un le = ground arith
reopened_le (some x) none pm am sp sa un le = absurd (cc (un refl))
reopened_le (some x) (some y) pm am (inl e) sa un le = absurd (cc e)
reopened_le (some x) (some y) pm am (inr e) (inl f) un le = absurd (cc f)
reopened_le (some x) (some y) pm am (inr (e, _)) (inr (f, _)) un le =
    let p : x ≡ pm = cc e in let q : y ≡ am = cc f in ground (arith, le, p, q)

module _ {V : Type 0} where
  -- Nothing purged yet, and something aggregated: the oldest row was not above what is aggregated.
  abbrev pub StartsBelow : Tiered V → Type 0
  StartsBelow db =
      (t : ℕ)
      → oldest db.tables.raw ≡ some t
      → db.purge_wm ≡ 0
      → 0 < db.agg_wm
      → align t ≤ db.agg_wm

  pub seed_at-IsMarked :
      (db : Tiered V) (t : ℕ)
      → oldest db.tables.raw ≡ some t
      → StartsBelow db
      → IsMarked db
      → IsMarked (seed_at db t)
  unfolding seed_at
  seed_at-IsMarked db t o below m = record {
    agg_aligned =
        if-elim IsAligned (nat_beq db.agg_wm 0) (align t) db.agg_wm (λ _. align-IsAligned t)
          (λ _. m.agg_aligned);
    purge_aligned =
        if-elim IsAligned (nat_beq db.purge_wm 0) (align t) db.purge_wm (λ _. align-IsAligned t)
          (λ _. m.purge_aligned);
    ordered = seeded_le db.purge_wm db.agg_wm t m.ordered (below t o);
    agg_saved = seeded-IsSaved db.saved_agg db.agg_wm t m.agg_saved;
    purge_saved = seeded-IsSaved db.saved_purge db.purge_wm t m.purge_saved;
    unsaved = λ e. ((m.unsaved e).0, ap (λ x. if nat_beq x 0 then align t else x) (m.unsaved e).1);
  }

  -- A restart, which reads the watermarks from the database, keeps them in order.
  pub reopen-IsMarked : (db : Tiered V) → IsMarked db → IsMarked (reopen db)
  unfolding reopen
  reopen-IsMarked db m = record {
    agg_aligned = reopened-IsAligned db.saved_agg db.agg_wm m.agg_saved m.agg_aligned;
    purge_aligned = reopened-IsAligned db.saved_purge db.purge_wm m.purge_saved m.purge_aligned;
    ordered =
        reopened_le db.saved_purge db.saved_agg db.purge_wm db.agg_wm m.purge_saved m.agg_saved
          (λ e. (m.unsaved e).0) m.ordered;
    agg_saved = reopened-IsSaved db.saved_agg db.agg_wm m.agg_saved;
    purge_saved = reopened-IsSaved db.saved_purge db.purge_wm m.purge_saved;
    unsaved =
        λ e. let p = (m.unsaved e).0 in (p, ap (λ o. get_or o 0) p ∙ sym (ap (λ o. get_or o 0) e));
  }

  pub failed-IsMarked : (r : Run V) → IsMarked r.db → IsMarked (failed r).db
  unfolding failed
  failed-IsMarked r m = record {
    agg_aligned = m.agg_aligned;
    purge_aligned = m.purge_aligned;
    ordered = m.ordered;
    agg_saved = m.agg_saved;
    purge_saved = m.purge_saved;
    unsaved = m.unsaved;
  }
