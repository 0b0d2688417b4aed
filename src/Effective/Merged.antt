-- ===== src/Effective/Merged.antt =====
-- What an accepted configuration is (buildEffective of server/config/effective.js), and what the store
-- keeps current.
use home_net_hub.Prelude.{
  ◌≡◌, refl, sym, ap, ◌∙◌, subst, ◌⊎◌, inl, inr, true, false, ◌&&◌, Option, none, some, List, [],
  ◌∷◌, ◌++◌, arith, leb, if◌then◌else◌, Bool-cases, if-elim, length, get_or, All, nat_eq, string_eq,
  list_eq, option_eq,
}
use home_net_hub.Text.{Text}
use home_net_hub.Effective.{
  Target, Config, UserConfig, Checks, Error, Outcome, built, rejected, Scan, is_id, seen_has,
  ids_of, scan_targets, add_clone, add_error, unknown_refs, scan_cards, outcome, schema_errors,
  merged_targets, merge, merge_unless, build_checked, build_effective, Store, settle, keep_previous,
  rebuild, rows_or_empty, no_id, bad_id, collides,
}

module _ {D : Type 0} where
  -- Each target has an id of letters, digits and underscores, which neither `seen` nor an earlier
  -- one has.
  abbrev pub AllFresh : List Text → List (Target D) → Type 0
  AllFresh seen [] = Unit
  AllFresh seen (t ∷ ts) =
      (id : Text) × (t.id ≡ some id)
      × (is_id id ≡ true)
      × (seen_has seen id ≡ false)
      × AllFresh (id ∷ seen) ts

-- The ids after the targets.
abbrev pub ids_after : {D : Type 0} → List Text → List (Target D) → List Text
ids_after seen [] = seen
ids_after seen (t ∷ ts) = ids_after (elim t.id [ none ↦ seen | some id ↦ id ∷ seen ]) ts

module _ {D E : Type 0} where
  -- What the loop leaves where it found no error.
  pub record IsClean (seen : List Text) (ts : List (Target D)) (sc : Scan D E) : Type 0 where
    pub fresh : AllFresh seen ts
    pub cloned : sc.cloned ≡ ts
    pub seen_after : sc.seen ≡ ids_after seen ts

  IsClean-clone :
      (seen : List Text) (t : Target D) (ts : List (Target D)) (id : Text)
      → t.id ≡ some id
      → is_id id ≡ true
      → seen_has seen id ≡ false
      → IsClean (id ∷ seen) ts (scan_targets {E = E} (id ∷ seen) ts)
      → IsClean seen (t ∷ ts) (add_clone t (scan_targets {E = E} (id ∷ seen) ts))
  unfolding add_clone
  IsClean-clone seen t ts id e valid new rest = record {
    fresh = (id, e, valid, new, rest.fresh);
    cloned = ap (λ r. t ∷ r) rest.cloned;
    seen_after =
        rest.seen_after
        ∙ ap (λ (o : Option Text). ids_after (elim o [ none ↦ seen | some x ↦ x ∷ seen ]) ts)
            (sym e);
  }

  scan_id-IsClean :
      (seen : List Text) (t : Target D) (ts : List (Target D)) (o : Option Text)
      → t.id ≡ o
      → ((seen' : List Text)
          → (scan_targets {E = E} seen' ts).errors ≡ []
          → IsClean seen' ts (scan_targets {E = E} seen' ts))
      → let sc : Scan D E = elim o [
        | none ↦ add_error no_id (scan_targets seen ts)
        | some id ↦
            if is_id id
            then if seen_has seen id
              then add_error (collides id) (scan_targets seen ts)
              else add_clone t (scan_targets (id ∷ seen) ts)
            else add_error (bad_id id) (scan_targets seen ts)
      ] in
        sc.errors ≡ [] → IsClean seen (t ∷ ts) sc
  unfolding add_error
  scan_id-IsClean seen t ts none e ih h = absurd (cc h)
  scan_id-IsClean seen t ts (some id) e ih h =
      (if-elim (λ (sc : Scan D E). sc.errors ≡ [] → IsClean seen (t ∷ ts) sc) (is_id id)
          (if seen_has seen id
            then add_error (collides id) (scan_targets seen ts)
            else add_clone t (scan_targets (id ∷ seen) ts))
          (add_error (bad_id id) (scan_targets seen ts))
          (λ valid.
            if-elim (λ (sc : Scan D E). sc.errors ≡ [] → IsClean seen (t ∷ ts) sc)
              (seen_has seen id) (add_error (collides id) (scan_targets seen ts))
              (add_clone t (scan_targets (id ∷ seen) ts)) (λ _ h. absurd (cc h))
              (λ new h.
                IsClean-clone seen t ts id e valid new (ih (id ∷ seen) (unfold add_clone in h))))
          (λ _ h. absurd (cc h)))
        h

  scan_targets-IsClean :
      (seen : List Text) (ts : List (Target D))
      → (scan_targets {E = E} seen ts).errors ≡ []
      → IsClean seen ts (scan_targets {E = E} seen ts)
  unfolding scan_targets
  scan_targets-IsClean seen [] h = record { fresh = tt; cloned = refl; seen_after = refl }
  scan_targets-IsClean seen (t ∷ ts) h =
      scan_id-IsClean seen t ts t.id refl (λ s e. scan_targets-IsClean s ts e) h

empty_list : {A : Type 0} (xs : List A) → leb (length xs) 0 ≡ true → xs ≡ []
empty_list [] h = refl
empty_list (x ∷ xs) h = absurd (ground (arith, h))

append_nil : {A : Type 0} (xs ys : List A) → xs ++ ys ≡ [] → (xs ≡ []) × (ys ≡ [])
append_nil [] ys h = (refl, h)
append_nil (x ∷ xs) ys h = absurd (cc h)

module _ {E : Type 0} where
  unknown_refs-All :
      (seen refs : List Text)
      → unknown_refs {E = E} seen refs ≡ []
      → All (λ ref. seen_has seen ref ≡ true) refs
  unfolding unknown_refs
  unknown_refs-All seen [] h = tt
  unknown_refs-All seen (ref ∷ refs) h = elim (Bool-cases (seen_has seen ref)) [
    | inl e ↦ (e, unknown_refs-All seen refs (ground (arith, e, h)))
    | inr e ↦ absurd (ground (arith, e, h))
  ]

  scan_cards-All :
      {C : Type 0} (refs_of : C → List Text) (seen : List Text) (cards : List C)
      → scan_cards {E = E} refs_of seen cards ≡ []
      → All (λ c. All (λ ref. seen_has seen ref ≡ true) (refs_of c)) cards
  unfolding scan_cards
  scan_cards-All refs_of seen [] h = tt
  scan_cards-All refs_of seen (c ∷ cards) h =
      let (first, rest) =
        append_nil (unknown_refs seen (refs_of c)) (scan_cards refs_of seen cards) h in
      (unknown_refs-All seen (refs_of c) first, scan_cards-All refs_of seen cards rest)

module _ {D C R E : Type 0} (k : Checks D C R E) where
  -- An accepted configuration that is not just the file's.
  pub record IsMerged (file : Config D C R) (user : UserConfig D C) (cfg : Config D C R)
      : Type 0 where
    pub fresh : AllFresh (ids_of file.targets) user.targets
    pub known :
        All
          (λ c.
            All
              (λ ref. seen_has (ids_after (ids_of file.targets) user.targets) ref ≡ true)
              (k.card_targets c))
          user.cards
    pub targets : cfg.targets ≡ file.targets ++ k.apply_defaults file.rest user.targets
    pub grid : cfg.grid ≡ file.grid ++ user.cards
    pub rest : cfg.rest ≡ file.rest
    pub passed : schema_errors k cfg.targets cfg.grid cfg.rest ≡ []

  outcome-built :
      (es : List (Error E)) (cfg out : Config D C R)
      → outcome es cfg ≡ built out
      → (es ≡ []) × (cfg ≡ out)
  unfolding outcome
  outcome-built [] cfg out h = (refl, cc h)
  outcome-built (e ∷ es) cfg out h = absurd (cc h)

  merge_unless-built :
      (file cfg : Config D C R) (es : List (Error E)) (cloned : List (Target D)) (cards : List C)
      → merge_unless k file es cloned cards ≡ built cfg
      → (es ≡ []) × (merge k file cloned cards ≡ built cfg)
  unfolding merge_unless
  merge_unless-built file cfg [] cloned cards h = (refl, h)
  merge_unless-built file cfg (e ∷ es) cloned cards h = absurd (cc h)

  build_checked-IsMerged :
      (file cfg : Config D C R) (user : UserConfig D C)
      → build_checked k file user ≡ built cfg
      → IsMerged file user cfg
  unfolding build_checked merge merged_targets
  build_checked-IsMerged file cfg user h =
      let sc : Scan D E = scan_targets (ids_of file.targets) user.targets in
      let (none_wrong, merged) = merge_unless-built file cfg _ sc.cloned user.cards h in
      let (targets_fine, cards_fine) =
        append_nil sc.errors (scan_cards k.card_targets sc.seen user.cards) none_wrong in
      let clean = scan_targets-IsClean {E = E} (ids_of file.targets) user.targets targets_fine in
      let (gate, out) = outcome-built _ _ cfg merged in
      record {
        fresh = clean.fresh;
        known =
            subst
              (λ seen.
                All (λ c. All (λ ref. seen_has seen ref ≡ true) (k.card_targets c)) user.cards)
              clean.seen_after (scan_cards-All k.card_targets sc.seen user.cards cards_fine);
        targets =
            sym (ap (λ (c : Config D C R). c.targets) out)
            ∙ ap (λ ts. file.targets ++ k.apply_defaults file.rest ts) clean.cloned;
        grid = sym (ap (λ (c : Config D C R). c.grid) out);
        rest = sym (ap (λ (c : Config D C R). c.rest) out);
        passed =
            ap (λ (c : Config D C R). schema_errors k c.targets c.grid c.rest) (sym out) ∙ gate;
      }

  -- An accepted configuration is the file's own where nothing was added. Otherwise each added target
  -- has a proper id that no target of the file and no earlier one has, each added card refers to
  -- targets that exist, the file's targets and cards come first, as they were, and the whole passes
  -- the schema.
  pub build_effective-IsMerged :
      (file cfg : Config D C R) (user : UserConfig D C)
      → build_effective k file user ≡ built cfg
      → ((user.targets ≡ []) × (user.cards ≡ []) × (cfg ≡ file)) ⊎ IsMerged file user cfg
  unfolding build_effective
  build_effective-IsMerged file cfg user h =
      if-elim
        (λ (o : Outcome D C R E).
          o ≡ built cfg
          → ((user.targets ≡ []) × (user.cards ≡ []) × (cfg ≡ file)) ⊎ IsMerged file user cfg)
        (leb (length user.targets) 0 && leb (length user.cards) 0) (built file)
        (build_checked k file user)
        (λ e same. inl (
          empty_list user.targets (ground (arith, e)),
          empty_list user.cards (ground (arith, e)),
          sym (cc same),
        ))
        (λ _ done. inr (build_checked-IsMerged file cfg user done)) h

  keep_previous-current :
      (o : Option (Config D C R)) (file : Config D C R) (errors : List (Error E))
      → ((keep_previous o file errors).0.current ≡ some (get_or o file))
        × ((keep_previous o file errors).0.last_error ≡ some errors)
  unfolding keep_previous
  keep_previous-current none file errors = (refl, refl)
  keep_previous-current (some old) file errors = (refl, refl)

  settle-current :
      (st : Store D C R E) (file : Config D C R) (o : Outcome D C R E)
      → ((cfg : Config D C R) × (o ≡ built cfg)
          × ((settle st file o).0.current ≡ some cfg)
          × ((settle st file o).0.last_error ≡ none))
        ⊎ ((errors : List (Error E)) × (o ≡ rejected errors)
            × ((settle st file o).0.current ≡ some (get_or st.current file))
            × ((settle st file o).0.last_error ≡ some errors))
  unfolding settle
  settle-current st file (built cfg) = inl (cfg, refl, refl, refl)
  settle-current st file (rejected errors) =
      let (same, why) = keep_previous-current st.current file errors in
      inr (errors, refl, same, why)

  -- A rebuild never leaves the panel dark: what is current afterwards is the configuration that was
  -- just accepted, with no error; or, where it was refused, the one that was current before, or else
  -- the file's alone, with the errors kept. Rows that cannot be read count as none.
  pub rebuild-current :
      (st : Store D C R E) (file : Config D C R) (user : Option (UserConfig D C))
      → let st' = (rebuild k st file user).0 in
        ((cfg : Config D C R) × (build_effective k file (rows_or_empty user) ≡ built cfg)
          × (st'.current ≡ some cfg)
          × (st'.last_error ≡ none))
        ⊎ ((errors : List (Error E)) × (build_effective k file (rows_or_empty user)
              ≡ rejected errors)
            × (st'.current ≡ some (get_or st.current file))
            × (st'.last_error ≡ some errors))
  unfolding rebuild
  rebuild-current st file user =
      settle-current st file (build_effective k file (rows_or_empty user))
