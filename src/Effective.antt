-- ===== src/Effective.antt =====
-- server/config/effective.js: the file's configuration with the targets and the cards that were added
-- in the browser. `D` is what a target document holds besides its id, `C` a card, `R` the rest of a
-- configuration and `E` an error message of the schema. The schema, the defaults and the etag, of
-- other modules, are the interface `Checks`.
pub mod Merged
mod Examples
use home_net_hub.Prelude.{
  ℕ, zero, suc, ◌+◌, ◌-◌, ◌*◌, ◌/◌, ◌%◌, ◌^◌, ◌≤◌, ◌<◌, min, max, String, ◌≡◌, refl, sym, ap, ◌∙◌,
  subst, ◌≢◌, ◌↔◌, ◌⊎◌, inl, inr, Bool, true, false, not, ◌&&◌, ◌||◌, Option, none, some, List, [],
  ◌∷◌, ◌++◌, map, arith, ltb, leb, nat_beq, if◌then◌else◌, ltb→lt, lt→ltb, leb→le, le→leb,
  not_leb→lt, not_ltb→le, nat_beq_iff, tests, and_true, or_false, Bool-cases, Option-cases, if-elim,
  length, take, drop, any, all, select, get_or, is_some, All, length-append, length-take,
  length-drop, length-select, All-append, Eq, ◌==◌, beq_refl, beq_ne, beq_true, nat_eq, string_eq,
  list_eq, option_eq, list_beq_iff,
}
use home_net_hub.Text.{Text, is_digit}

-- An id that is no string is none.
pub record Target (D : Type 0) : Type 0 where
  pub id : Option Text
  pub body : D

pub record Config (D C R : Type 0) : Type 0 where
  pub targets : List (Target D)
  pub grid : List C
  pub rest : R
  pub etag : Text

pub record UserConfig (D C : Type 0) : Type 0 where
  pub targets : List (Target D)
  pub cards : List C

-- A list of errors is empty where the check passes; `cross_validate` and `compute_etag` see the
-- merged targets, the merged grid and the rest.
pub record Checks (D C R E : Type 0) : Type 0 where
  pub card_targets : C → List Text
  pub apply_defaults : R → List (Target D) → List (Target D)
  pub validate_targets : List (Target D) → List E
  pub validate_layout : List C → List E
  pub cross_validate : List (Target D) → List C → R → List E
  pub compute_etag : List (Target D) → List C → R → Text

pub data Error (E : Type 0) : Type 0 where
  bad_id collides unknown_target : Text → Error E
  no_id : Error E
  invalid : E → Error E

pub data Outcome (D C R E : Type 0) : Type 0 where
  built : Config D C R → Outcome D C R E
  rejected : List (Error E) → Outcome D C R E

is_id_char : ℕ → Bool
is_id_char c = is_digit c || leb b'a' c && leb c b'z' || leb b'A' c && leb c b'Z' || nat_beq c b'_'

-- /^[a-zA-Z0-9_]+$/
unfoldable pub is_id : Text → Bool
unfolding is_id_char
is_id s = leb 1 (length s) && all is_id_char s

-- seen.has(id)
unfoldable pub seen_has : List Text → Text → Bool
seen_has seen id = any (λ (x : Text). x == id) seen

-- The ids of the file's targets that are strings: no other is ever looked up.
unfoldable pub ids_of : {D : Type 0} → List (Target D) → List Text
ids_of [] = []
ids_of (t ∷ ts) = let rest = ids_of ts in elim t.id [ none ↦ rest | some id ↦ id ∷ rest ]

-- What the loop over the user's targets leaves.
pub record Scan (D E : Type 0) : Type 0 where
  pub seen : List Text
  pub cloned : List (Target D)
  pub errors : List (Error E)

module _ {D E : Type 0} where
  unfoldable pub add_clone : Target D → Scan D E → Scan D E
  add_clone t sc = record sc { cloned = t ∷ sc.cloned }

  unfoldable pub add_error : Error E → Scan D E → Scan D E
  add_error e sc = record sc { errors = e ∷ sc.errors }

  unfoldable pub scan_targets : List Text → List (Target D) → Scan D E
  scan_targets seen [] = record { seen = seen; cloned = []; errors = [] }
  scan_targets seen (t ∷ ts) = elim t.id [
    | none ↦ add_error no_id (scan_targets seen ts)
    | some id ↦
        let skipped = scan_targets seen ts in
        let taken = scan_targets (id ∷ seen) ts in
        if is_id id
        then if seen_has seen id then add_error (collides id) skipped else add_clone t taken
        else add_error (bad_id id) skipped
  ]

module _ {E : Type 0} where
  unfoldable pub unknown_refs : List Text → List Text → List (Error E)
  unknown_refs seen [] = []
  unknown_refs seen (ref ∷ refs) =
      let rest = unknown_refs seen refs in
      if seen_has seen ref then rest else unknown_target ref ∷ rest

module _ {C E : Type 0} where
  unfoldable pub scan_cards : (C → List Text) → List Text → List C → List (Error E)
  scan_cards refs_of seen [] = []
  scan_cards refs_of seen (c ∷ cs) = unknown_refs seen (refs_of c) ++ scan_cards refs_of seen cs

module _ {D C R E : Type 0} where
  unfoldable pub outcome : List (Error E) → Config D C R → Outcome D C R E
  outcome [] cfg = built cfg
  outcome (e ∷ es) cfg = rejected (e ∷ es)

  -- The schema on both documents, then across them.
  unfoldable pub schema_errors : Checks D C R E → List (Target D) → List C → R → List (Error E)
  schema_errors k targets grid rest =
      elim (map invalid (k.validate_targets targets ++ k.validate_layout grid)) [
        | [] ↦ map invalid (k.cross_validate targets grid rest)
        | e ∷ es ↦ e ∷ es
      ]

  unfoldable pub merged_targets : Checks D C R E → Config D C R → List (Target D) → List (Target D)
  merged_targets k file cloned = file.targets ++ k.apply_defaults file.rest cloned

  unfoldable pub merge : Checks D C R E → Config D C R → List (Target D) → List C → Outcome D C R E
  merge k file cloned cards =
      let targets = merged_targets k file cloned in
      let grid = file.grid ++ cards in
      outcome (schema_errors k targets grid file.rest) (record {
        targets = targets;
        grid = grid;
        rest = file.rest;
        etag = k.compute_etag targets grid file.rest;
      })

  unfoldable pub merge_unless :
      Checks D C R E → Config D C R → List (Error E) → List (Target D) → List C → Outcome D C R E
  merge_unless k file [] cloned cards = merge k file cloned cards
  merge_unless k file (e ∷ es) cloned cards = rejected (e ∷ es)

  unfoldable pub build_checked : Checks D C R E → Config D C R → UserConfig D C → Outcome D C R E
  build_checked k file user =
      let sc = scan_targets (ids_of file.targets) user.targets in
      merge_unless k file (sc.errors ++ scan_cards k.card_targets sc.seen user.cards) sc.cloned
        user.cards

  unfoldable pub build_effective : Checks D C R E → Config D C R → UserConfig D C → Outcome D C R E
  build_effective k file user =
      if leb (length user.targets) 0 && leb (length user.cards) 0
      then built file
      else build_checked k file user

-- The user's rows, or none where they cannot be read.
unfoldable pub rows_or_empty : {D C : Type 0} → Option (UserConfig D C) → UserConfig D C
rows_or_empty none = record { targets = []; cards = [] }
rows_or_empty (some user) = user

-- EffectiveStore: what is current, and the errors of the last refusal.
pub record Store (D C R E : Type 0) : Type 0 where
  pub current : Option (Config D C R)
  pub last_error : Option (List (Error E))

-- The answer of rebuild: whether the etag changed, or the errors, with nothing current before.
pub data Rebuilt (E : Type 0) : Type 0 where
  rebuilt : Bool → Rebuilt E
  refused : List (Error E) → Rebuilt E
  fell_back_to_file : List (Error E) → Rebuilt E

module _ {D C R : Type 0} where
  unfoldable pub etag_changed : Option (Config D C R) → Config D C R → Bool
  etag_changed none cfg = true
  etag_changed (some old) cfg = if old.etag == cfg.etag then false else true

module _ {D C R E : Type 0} where
  unfoldable pub keep_previous :
      Option (Config D C R) → Config D C R → List (Error E) → Store D C R E × Rebuilt E
  keep_previous none file errors =
      (record { current = some file; last_error = some errors }, fell_back_to_file errors)
  keep_previous (some old) file errors =
      (record { current = some old; last_error = some errors }, refused errors)

  unfoldable pub settle : Store D C R E → Config D C R → Outcome D C R E → Store D C R E × Rebuilt E
  settle st file (built cfg) =
      (record { current = some cfg; last_error = none }, rebuilt (etag_changed st.current cfg))
  settle st file (rejected errors) = keep_previous st.current file errors

  unfoldable pub rebuild :
      Checks D C R E
      → Store D C R E
      → Config D C R
      → Option (UserConfig D C)
      → Store D C R E × Rebuilt E
  rebuild k st file user = settle st file (build_effective k file (rows_or_empty user))
