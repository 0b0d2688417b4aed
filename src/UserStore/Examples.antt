-- ===== src/UserStore/Examples.antt =====
-- server/store/user_store.js with a target and two cards, and its theorems there.
use home_net_hub.Prelude.{
  ℕ, ◌≡◌, refl, true, Option, none, some, List, [], ◌∷◌, nat_eq, string_eq, list_eq, option_eq,
  pair_eq,
}
use mathlib.Core.List.{Memᴰ}
use home_net_hub.Text.{Text, codes, is_digit, lower}
use home_net_hub.JsMap.{get, set, delete}
use home_net_hub.UserStore.{
  Doc, text, flag, texts, UserStore, TargetRow, CardRow, upsert_target, target_row, target_body,
  get_user_config, is_id,
}
use home_net_hub.UserStore.Position.{upsert_target-get_user_config}

abbrev card_for : List (Option Text) → CardRow ℕ
card_for ids = record {
  doc = some ((codes "children", texts ids) ∷ []);
  position = 0;
  created_at = 1;
  updated_at = 1;
}

abbrev nas_row : TargetRow ℕ
nas_row = record { doc = some []; enabled = true; created_at = 1; updated_at = 1 }

abbrev two_cards : UserStore ℕ
two_cards = record {
  targets = (codes "nas", nas_row) ∷ [];
  cards =
      (codes "c1", card_for (some (codes "nas") ∷ []))
      ∷ (codes "c2", card_for (some (codes "m25") ∷ []))
      ∷ [];
  settings = [];
}

abbrev one_card : UserStore ℕ
one_card = record {
  targets = [];
  cards = (codes "c2", card_for (some (codes "m25") ∷ [])) ∷ [];
  settings = [];
}

abbrev with_pi : UserStore ℕ
with_pi = record one_card {
  targets =
      (
        codes "pi",
        record {
          doc = some ((codes "name", text (codes "Pi")) ∷ (codes "id", text (codes "pi")) ∷ []);
          enabled = true;
          created_at = 5;
          updated_at = 5;
        },
      )
      ∷ [];
}

pi_stored :
    upsert_target some one_card (codes "pi") ((codes "name", text (codes "Pi")) ∷ []) true 5
    ≡ some with_pi
unfolding upsert_target is_id target_row target_body set delete get is_digit lower
pi_stored = refl

upsert_target-get_user_config_example :
    ((row : TargetRow ℕ) × (body : Doc ℕ) × (get with_pi.targets (codes "pi") ≡ some row)
      × (row.doc ≡ some body)
      × (row.enabled ≡ true)
      × (get body (codes "id") ≡ some (text (codes "pi")))
      × (get body (codes "enabled") ≡ none))
    × ((entry : Doc ℕ) × Memᴰ entry (get_user_config with_pi).0
        × (get entry (codes "id") ≡ some (text (codes "pi")))
        × (get entry (codes "enabled") ≡ some (flag true))
        × (get entry (codes "name") ≡ get ((codes "name", text (codes "Pi")) ∷ []) (codes "name")))
upsert_target-get_user_config_example =
    upsert_target-get_user_config some one_card with_pi (codes "pi") (codes "name")
      ((codes "name", text (codes "Pi")) ∷ []) true 5 refl pi_stored (λ e. absurd (cc e))
      (λ e. absurd (cc e))
