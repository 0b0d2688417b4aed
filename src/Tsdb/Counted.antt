-- ===== src/Tsdb/Counted.antt =====
-- The rows of a chunk counted by their five minutes (GROUP BY ts / BUCKET_SEC in
-- server/store/sqlite.js): no row is counted twice and none is left out.
use home_net_hub.Prelude.{
  ℕ, ◌+◌, ◌≡◌, refl, sym, ap, ◌∙◌, subst, inl, inr, true, false, ◌||◌, List, [], ◌∷◌, arith,
  nat_beq, if◌then◌else◌, nat_beq_iff, or_false, Bool-cases, if-elim, length, any, nat_eq,
  string_eq, list_eq, option_eq, pair_eq,
}
use home_net_hub.Tsdb.{Stored}
use home_net_hub.Tsdb.Tiers.{slot_of, slots, slot_rows}

abbrev pub Distinct : List ℕ → Type 0
Distinct [] = Unit
Distinct (b ∷ bs) = (any (nat_beq b) bs ≡ false) × Distinct bs

module _ {V : Type 0} where
  abbrev pub total : List ℕ → List (Stored V) → ℕ
  total [] rows = 0
  total (b ∷ bs) rows = length (slot_rows b rows) + total bs rows

  slot_rows-length :
      (b : ℕ) (s : Stored V) (rows : List (Stored V))
      → length (slot_rows b (s ∷ rows)) ≡ (
          if nat_beq (slot_of s) b
          then length (slot_rows b rows) + 1
          else length (slot_rows b rows))
  slot_rows-length b s rows = ground arith

  total-out :
      (bs : List ℕ) (s : Stored V) (rows : List (Stored V))
      → any (nat_beq (slot_of s)) bs ≡ false
      → total bs (s ∷ rows) ≡ total bs rows
  total-out [] s rows h = refl
  total-out (b ∷ bs) s rows h =
      let split = or_false (nat_beq (slot_of s) b) (any (nat_beq (slot_of s)) bs) h in
      let here = split.0 in
      let ih = total-out bs s rows split.1 in
      let one = slot_rows-length b s rows in ground (arith, here, ih, one)

  total-in :
      (bs : List ℕ) (s : Stored V) (rows : List (Stored V))
      → Distinct bs
      → any (nat_beq (slot_of s)) bs ≡ true
      → total bs (s ∷ rows) ≡ total bs rows + 1
  total-in [] s rows d h = absurd (cc h)
  total-in (b ∷ bs) s rows (apart, d) h =
      let one = slot_rows-length b s rows in
      elim (Bool-cases (nat_beq (slot_of s) b)) [
        | inl e ↦
            let q : slot_of s ≡ b = (nat_beq_iff (slot_of s) b).0 e in
            let out = total-out bs s rows (subst (λ x. any (nat_beq x) bs ≡ false) (sym q) apart) in
            ground (arith, one, e, out)
        | inr e ↦
            let rest : any (nat_beq (slot_of s)) bs ≡ true =
              sym (ap (λ x. x || any (nat_beq (slot_of s)) bs) e) ∙ h in
            let ih = total-in bs s rows d rest in ground (arith, one, e, ih)
      ]

  pub slots-Distinct : (rows : List (Stored V)) → Distinct (slots rows)
  unfolding slots
  slots-Distinct [] = tt
  slots-Distinct (s ∷ rows) =
      if-elim Distinct (any (nat_beq (slot_of s)) (slots rows)) (slots rows)
        (slot_of s ∷ slots rows) (λ _. slots-Distinct rows) (λ b. (b, slots-Distinct rows))

  slot_rows-unseen :
      (b : ℕ) (rows : List (Stored V))
      → any (nat_beq b) (slots rows) ≡ false
      → length (slot_rows b rows) ≡ 0
  unfolding slots
  slot_rows-unseen b [] h = refl
  slot_rows-unseen b (s ∷ rows) h =
      let one = slot_rows-length b s rows in
      let ih = slot_rows-unseen b rows in
      ground (arith, one, h, ih, nat_beq_iff (slot_of s) b, nat_beq_iff b (slot_of s))

  -- Each row is in one of the slots, and in one alone.
  pub total-slots : (rows : List (Stored V)) → total (slots rows) rows ≡ length rows
  unfolding slots
  total-slots [] = refl
  total-slots (s ∷ rows) =
      let c = slot_of s in
      let ih = total-slots rows in
      if-elim (λ bs. total bs (s ∷ rows) ≡ length (s ∷ rows)) (any (nat_beq c) (slots rows))
        (slots rows) (c ∷ slots rows)
        (λ b.
          let more = total-in (slots rows) s rows (slots-Distinct rows) b in
          ground (arith, more, ih))
        (λ b.
          let more = total-out (slots rows) s rows b in
          let one = slot_rows-length c s rows in
          let new = slot_rows-unseen c rows b in ground (arith, more, ih, one, new))
