-- ===== src/Effective/Examples.antt =====
-- server/config/effective.js with one target in the file and one added, and its theorems there.
use home_net_hub.Prelude.{
  ℕ, ◌≡◌, refl, ◌⊎◌, none, some, List, [], ◌∷◌, get_or, nat_eq, string_eq, list_eq, option_eq,
}
use home_net_hub.Text.{Text, codes, is_digit}
use home_net_hub.Effective.{
  Target, Config, UserConfig, Checks, Error, built, rejected, is_id, seen_has, ids_of, scan_targets,
  add_clone, add_error, unknown_refs, scan_cards, outcome, schema_errors, merged_targets, merge,
  merge_unless, build_checked, build_effective, Store, rebuild, rows_or_empty, collides,
}
use home_net_hub.Effective.Merged.{IsMerged, build_effective-IsMerged, rebuild-current}

-- A card is the list of its targets, and the schema accepts everything.
abbrev lenient : Checks ℕ (List Text) ℕ ℕ
lenient = record {
  card_targets = λ c. c;
  apply_defaults = λ r ts. ts;
  validate_targets = λ ts. [];
  validate_layout = λ cs. [];
  cross_validate = λ ts cs r. [];
  compute_etag = λ ts cs r. codes "etag2";
}

abbrev nas : Target ℕ
nas = record { id = some (codes "nas"); body = 1 }

abbrev printer : Target ℕ
printer = record { id = some (codes "printer"); body = 2 }

abbrev from_file : Config ℕ (List Text) ℕ
from_file = record {
  targets = nas ∷ [];
  grid = (codes "nas" ∷ []) ∷ [];
  rest = 0;
  etag = codes "etag1";
}

abbrev added : UserConfig ℕ (List Text)
added = record { targets = printer ∷ []; cards = (codes "printer" ∷ codes "nas" ∷ []) ∷ [] }

abbrev both : Config ℕ (List Text) ℕ
both = record {
  targets = nas ∷ printer ∷ [];
  grid = (codes "nas" ∷ []) ∷ (codes "printer" ∷ codes "nas" ∷ []) ∷ [];
  rest = 0;
  etag = codes "etag2";
}

built_both : build_effective lenient from_file added ≡ built both
unfolding build_effective build_checked merge_unless merge merged_targets schema_errors outcome
    scan_cards unknown_refs scan_targets add_clone ids_of seen_has is_id is_digit
built_both = refl

shadowing :
    build_effective lenient from_file (record { targets = nas ∷ []; cards = [] })
    ≡ rejected (collides (codes "nas") ∷ [])
unfolding build_effective build_checked merge_unless scan_cards scan_targets add_error ids_of
    seen_has is_id is_digit
shadowing = refl

build_effective-IsMerged_example :
    ((added.targets ≡ []) × (added.cards ≡ []) × (both ≡ from_file))
    ⊎ IsMerged lenient from_file added both
build_effective-IsMerged_example = build_effective-IsMerged lenient from_file both added built_both

abbrev running : Store ℕ (List Text) ℕ ℕ
running = record { current = some both; last_error = none }

rebuild-current_example :
    let st' = (rebuild lenient running from_file (some added)).0 in
    ((cfg : Config ℕ (List Text) ℕ) × (build_effective lenient from_file
          (rows_or_empty (some added))
        ≡ built cfg)
      × (st'.current ≡ some cfg)
      × (st'.last_error ≡ none))
    ⊎ ((errors : List (Error ℕ)) × (build_effective lenient from_file (rows_or_empty (some added))
          ≡ rejected errors)
        × (st'.current ≡ some (get_or running.current from_file))
        × (st'.last_error ≡ some errors))
rebuild-current_example = rebuild-current lenient running from_file (some added)
