-- ===== src/Counters/Cover.antt =====
-- What mergeCover of server/collectors/nodes.js does to the stretches it is given.
use home_net_hub.Prelude.{
  ℕ, ◌+◌, ◌≤◌, ◌<◌, max, ◌≡◌, refl, ap, ◌∙◌, true, ◌||◌, List, [], ◌∷◌, arith, ltb, leb, ltb→lt,
  leb→le, if-elim, select, All, nat_eq, string_eq, list_eq, option_eq,
}
use home_net_hub.Counters.{
  Stretch, is_proper, insert, sort, merge_from, merge_sorted, merge_cover, is_in, covered,
}

covered-select : (ss : List Stretch) (m : ℕ) → covered (select is_proper ss) m ≡ covered ss m
unfolding covered is_in is_proper
covered-select [] m = refl
covered-select (s ∷ ss) m = ground (arith, covered-select ss m)

covered-insert :
    (s : Stretch) (ss : List Stretch) (m : ℕ)
    → covered (insert s ss) m ≡ (is_in m s || covered ss m)
unfolding covered insert
covered-insert s [] m = refl
covered-insert s (t ∷ ts) m = ground (arith, covered-insert s ts m)

covered-sort : (ss : List Stretch) (m : ℕ) → covered (sort ss) m ≡ covered ss m
unfolding covered sort
covered-sort [] m = refl
covered-sort (s ∷ ss) m =
    covered-insert s (sort ss) m ∙ ap (λ b. is_in m s || b) (covered-sort ss m)

-- In order of their starts, none before `lo`.
Sorted : ℕ → List Stretch → Type 0
Sorted lo [] = Unit
Sorted lo (s ∷ ss) = (lo ≤ s.0) × Sorted s.0 ss

insert-Sorted :
    (lo : ℕ) (s : Stretch) (ss : List Stretch) → lo ≤ s.0 → Sorted lo ss → Sorted lo (insert s ss)
unfolding Sorted insert
insert-Sorted lo s [] h o = (h, tt)
insert-Sorted lo s (t ∷ ts) h o =
    if-elim (Sorted lo) (leb s.0 t.0) (s ∷ t ∷ ts) (t ∷ insert s ts)
      (λ e. (h, (leb→le s.0 t.0 e, o.1)))
      (λ e. (o.0, insert-Sorted t.0 s ts (ground (arith, e)) o.1))

sort-Sorted : (ss : List Stretch) → Sorted 0 (sort ss)
unfolding Sorted sort
sort-Sorted [] = tt
sort-Sorted (s ∷ ss) = insert-Sorted 0 s (sort ss) (omega arith) (sort-Sorted ss)

Sorted-weaker : (lo lo' : ℕ) (ss : List Stretch) → lo' ≤ lo → Sorted lo ss → Sorted lo' ss
unfolding Sorted
Sorted-weaker lo lo' [] h o = tt
Sorted-weaker lo lo' (s ∷ ss) h o = (omega (arith, h, o.0), o.1)

merge_from-keeps :
    (last : Stretch) (ss : List Stretch) (m : ℕ)
    → Sorted last.0 ss
    → (is_in m last || covered ss m) ≡ true
    → covered (merge_from last ss) m ≡ true
unfolding Sorted merge_from covered is_in
merge_from-keeps last [] m o h = h
merge_from-keeps last (s ∷ ss) m o h =
    if-elim (λ out. covered out m ≡ true) (leb s.0 (last.1 + 60))
      (merge_from (last.0, max last.1 s.1) ss) (last ∷ merge_from s ss)
      (λ e.
        merge_from-keeps (last.0, max last.1 s.1) ss m (Sorted-weaker s.0 last.0 ss o.0 o.1)
          (ground (arith, h, o.0)))
      (λ e. ground (arith, h, merge_from-keeps s ss m o.1))

merge_sorted-keeps :
    (ss : List Stretch) (m : ℕ)
    → Sorted 0 ss
    → covered ss m ≡ true
    → covered (merge_sorted ss) m ≡ true
unfolding Sorted merge_sorted covered
merge_sorted-keeps [] m o h = h
merge_sorted-keeps (s ∷ ss) m o h = merge_from-keeps s ss m o.1 h

-- A minute that one of the counters covered stays covered when the stretches are merged.
pub merge_cover-keeps :
    (list : List Stretch) (m : ℕ) → covered list m ≡ true → covered (merge_cover list) m ≡ true
unfolding merge_cover
merge_cover-keeps list m h =
    merge_sorted-keeps (sort (select is_proper list)) m (sort-Sorted (select is_proper list))
      (covered-sort (select is_proper list) m ∙ covered-select list m ∙ h)

-- Proper stretches, each more than a minute after the one before, which ended at `t`.
abbrev pub SpacedAfter : ℕ → List Stretch → Type 0
SpacedAfter t [] = Unit
SpacedAfter t (s ∷ ss) = (t + 60 < s.0) × (s.0 < s.1) × SpacedAfter s.1 ss

abbrev pub Spaced : List Stretch → Type 0
Spaced [] = Unit
Spaced (s ∷ ss) = (s.0 < s.1) × SpacedAfter s.1 ss

abbrev AllProper : List Stretch → Type 0
AllProper ss = All (λ s. s.0 < s.1) ss

merge_from-SpacedAfter :
    (t : ℕ) (last : Stretch) (ss : List Stretch)
    → t + 60 < last.0
    → last.0 < last.1
    → AllProper ss
    → SpacedAfter t (merge_from last ss)
unfolding merge_from
merge_from-SpacedAfter t last [] far p h = (far, p, tt)
merge_from-SpacedAfter t last (s ∷ ss) far p h =
    if-elim (SpacedAfter t) (leb s.0 (last.1 + 60)) (merge_from (last.0, max last.1 s.1) ss)
      (last ∷ merge_from s ss)
      (λ e. merge_from-SpacedAfter t (last.0, max last.1 s.1) ss far (omega (arith, p)) h.1)
      (λ e. (far, p, merge_from-SpacedAfter last.1 s ss (ground (arith, e)) h.0 h.1))

merge_from-Spaced :
    (last : Stretch) (ss : List Stretch)
    → last.0 < last.1
    → AllProper ss
    → Spaced (merge_from last ss)
unfolding merge_from
merge_from-Spaced last [] p h = (p, tt)
merge_from-Spaced last (s ∷ ss) p h =
    if-elim Spaced (leb s.0 (last.1 + 60)) (merge_from (last.0, max last.1 s.1) ss)
      (last ∷ merge_from s ss)
      (λ e. merge_from-Spaced (last.0, max last.1 s.1) ss (omega (arith, p)) h.1)
      (λ e. (p, merge_from-SpacedAfter last.1 s ss (ground (arith, e)) h.0 h.1))

insert-AllProper :
    (s : Stretch) (ss : List Stretch) → s.0 < s.1 → AllProper ss → AllProper (insert s ss)
unfolding insert
insert-AllProper s [] p h = (p, tt)
insert-AllProper s (t ∷ ts) p h =
    if-elim AllProper (leb s.0 t.0) (s ∷ t ∷ ts) (t ∷ insert s ts) (λ e. (p, h))
      (λ e. (h.0, insert-AllProper s ts p h.1))

sort-AllProper : (ss : List Stretch) → AllProper ss → AllProper (sort ss)
unfolding sort
sort-AllProper [] h = tt
sort-AllProper (s ∷ ss) h = insert-AllProper s (sort ss) h.0 (sort-AllProper ss h.1)

select-AllProper : (ss : List Stretch) → AllProper (select is_proper ss)
unfolding is_proper
select-AllProper [] = tt
select-AllProper (s ∷ ss) =
    if-elim AllProper (ltb s.0 s.1) (s ∷ select is_proper ss) (select is_proper ss)
      (λ e. (ltb→lt s.0 s.1 e, select-AllProper ss)) (λ e. select-AllProper ss)

merge_sorted-Spaced : (ss : List Stretch) → AllProper ss → Spaced (merge_sorted ss)
unfolding merge_sorted
merge_sorted-Spaced [] h = tt
merge_sorted-Spaced (s ∷ ss) h = merge_from-Spaced s ss h.0 h.1

-- The merged stretches are proper, in order, and more than a minute apart.
pub merge_cover-Spaced : (list : List Stretch) → Spaced (merge_cover list)
unfolding merge_cover
merge_cover-Spaced list =
    merge_sorted-Spaced (sort (select is_proper list))
      (sort-AllProper (select is_proper list) (select-AllProper list))
