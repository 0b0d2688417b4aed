-- ===== src/UserStore.antt =====
-- server/store/user_store.js: the targets and cards that were added in the browser, and the settings.
-- A document is its fields; of their values the store looks at texts, flags and lists of texts, a
-- member of a list that is no text being none, and `X` is the type of all others. A row has the
-- document that JSON.parse reads in its text, none where it throws; `json` is what JSON.parse reads in
-- what JSON.stringify wrote of a document. An answer none is an operation that
-- threw, and a transaction that threw is rolled back.
pub mod Orphans
pub mod Position
mod Examples
use home_net_hub.Prelude.{
  ℕ, zero, suc, ◌+◌, ◌-◌, ◌*◌, ◌/◌, ◌%◌, ◌^◌, ◌≤◌, ◌<◌, min, max, String, ◌≡◌, refl, sym, ap, ◌∙◌,
  subst, ◌≢◌, ◌↔◌, ◌⊎◌, inl, inr, Bool, true, false, not, ◌&&◌, ◌||◌, Option, none, some, List, [],
  ◌∷◌, ◌++◌, map, arith, ltb, leb, nat_beq, if◌then◌else◌, ltb→lt, lt→ltb, leb→le, le→leb,
  not_leb→lt, not_ltb→le, nat_beq_iff, tests, and_true, or_false, Bool-cases, Option-cases, if-elim,
  if_some, if_none, map_option, map_option-some, length, take, drop, any, all, select, get_or,
  is_some, All, length-append, length-take, length-drop, length-select, All-append, All-map,
  All-intro, Eq, ◌==◌, beq_refl, beq_ne, beq_true, nat_eq, string_eq, list_eq, option_eq, pair_eq,
  pair_beq_iff, list_beq_iff,
}
use home_net_hub.Text.{Text, codes, is_digit, lower}
use home_net_hub.JsMap.{JsMap, get, set, delete, has}

-- `nothing` is null, or a number that is 0; `other` is any other number or an object.
pub data Value (X : Type 0) : Type 0 where
  nothing : Value X
  text : Text → Value X
  flag : Bool → Value X
  texts : List (Option Text) → Value X
  other : X → Value X

abbrev pub Doc : Type 0 → Type 0
Doc X = JsMap Text (Value X)

pub record TargetRow (X : Type 0) : Type 0 where
  pub doc : Option (Doc X)
  pub enabled : Bool
  pub created_at : ℕ
  pub updated_at : ℕ

pub record CardRow (X : Type 0) : Type 0 where
  pub doc : Option (Doc X)
  pub position : ℕ
  pub created_at : ℕ
  pub updated_at : ℕ

pub record UserStore (X : Type 0) : Type 0 where
  pub targets : JsMap Text (TargetRow X)
  pub cards : JsMap Text (CardRow X)
  pub settings : JsMap Text Text

-- [a-zA-Z0-9_]
is_id_char : ℕ → Bool
is_id_char c = is_digit c || leb b'a' (lower c) && leb (lower c) b'z' || nat_beq c b'_'

-- assertId: ID_RE
unfoldable pub is_id : Text → Bool
unfolding is_id_char
is_id id = leb 1 (length id) && all is_id_char id

-- ORDER BY: insertion into a list that is in order
module _ {A : Type 0} (before : A → A → Bool) where
  unfoldable pub insert_sorted : A → List A → List A
  insert_sorted x [] = x ∷ []
  insert_sorted x (y ∷ ys) =
      let rest = insert_sorted x ys in if before y x then y ∷ rest else x ∷ y ∷ ys

  unfoldable pub sorted : List A → List A
  sorted [] = []
  sorted (x ∷ xs) = insert_sorted x (sorted xs)

unfoldable pub text_less : Text → Text → Bool
text_less [] [] = false
text_less [] (d ∷ t) = true
text_less (c ∷ s) [] = false
text_less (c ∷ s) (d ∷ t) = ltb c d || nat_beq c d && text_less s t

abbrev pub demo_dismissed : Text
demo_dismissed = codes "demo_dismissed"

unfoldable pub only_texts : List (Option Text) → List Text
only_texts [] = []
only_texts (none ∷ xs) = only_texts xs
only_texts (some t ∷ xs) = t ∷ only_texts xs

module _ {X : Type 0} where
  unfoldable pub target_before : Text × TargetRow X → Text × TargetRow X → Bool
  target_before a b = text_less a.0 b.0

  unfoldable pub card_before : Text × CardRow X → Text × CardRow X → Bool
  card_before a b =
      ltb a.1.position b.1.position || nat_beq a.1.position b.1.position && text_less a.0 b.0

  -- _parse on the rows: one that does not parse is left out.
  unfoldable pub parse_targets : List (Text × TargetRow X) → List (Text × Doc X × Bool)
  parse_targets [] = []
  parse_targets ((id, r) ∷ rows) =
      let rest = parse_targets rows in
      elim r.doc [ none ↦ rest | some doc ↦ (id, doc, r.enabled) ∷ rest ]

  unfoldable pub parse_cards : List (Text × CardRow X) → List (Text × Doc X)
  parse_cards [] = []
  parse_cards ((id, r) ∷ rows) =
      let rest = parse_cards rows in elim r.doc [ none ↦ rest | some doc ↦ (id, doc) ∷ rest ]

  unfoldable pub list_targets : UserStore X → List (Text × Doc X × Bool)
  list_targets db = parse_targets (sorted target_before db.targets)

  unfoldable pub list_cards : UserStore X → List (Text × Doc X)
  list_cards db = parse_cards (sorted card_before db.cards)

  -- { ...doc, id, enabled }
  unfoldable pub config_target : Text × Doc X × Bool → Doc X
  config_target (id, doc, enabled) =
      set (set doc (codes "id") (text id)) (codes "enabled") (flag enabled)

  unfoldable pub get_user_config : UserStore X → List (Doc X) × List (Doc X)
  get_user_config db =
      (map config_target (list_targets db), map (λ (c : Text × Doc X). c.1) (list_cards db))

  unfoldable pub get_setting : UserStore X → Text → Option Text
  get_setting db k = get db.settings k

  unfoldable pub set_setting : UserStore X → Text → Text → UserStore X
  set_setting db k v = record db { settings = set db.settings k v }

  unfoldable pub is_demo_dismissed : UserStore X → Bool
  is_demo_dismissed db = get_setting db demo_dismissed == some (codes "1")

  unfoldable pub dismiss_demo : UserStore X → UserStore X
  dismiss_demo db = set_setting db demo_dismissed (codes "1")

  unfoldable pub count_all : UserStore X → ℕ × ℕ
  count_all db = (length db.targets, length db.cards)

  -- INSERT ... ON CONFLICT(id) DO UPDATE: a row that is there keeps when it was made.
  unfoldable pub target_row : Option (TargetRow X) → Option (Doc X) → Bool → ℕ → TargetRow X
  target_row none doc enabled now = record {
    doc = doc;
    enabled = enabled;
    created_at = now;
    updated_at = now;
  }
  target_row (some r) doc enabled now = record {
    doc = doc;
    enabled = enabled;
    created_at = r.created_at;
    updated_at = now;
  }

  -- { ...doc, id }, without enabled
  unfoldable pub target_body : Text → Doc X → Doc X
  target_body id doc = delete (set doc (codes "id") (text id)) (codes "enabled")

  unfoldable pub upsert_target :
      (Doc X → Option (Doc X)) → UserStore X → Text → Doc X → Bool → ℕ → Option (UserStore X)
  upsert_target json db id doc enabled now =
      if is_id id
      then some (record db {
        targets =
            set db.targets id
              (target_row (get db.targets id) (json (target_body id doc)) enabled now);
      })
      else none

  -- COALESCE(MAX(position), -1) + 1
  unfoldable pub next_position : List (Text × CardRow X) → ℕ
  next_position [] = 0
  next_position ((id, r) ∷ rows) = max (r.position + 1) (next_position rows)

  unfoldable pub card_row : Option (CardRow X) → Option (Doc X) → ℕ → ℕ → CardRow X
  card_row none doc position now = record {
    doc = doc;
    position = position;
    created_at = now;
    updated_at = now;
  }
  card_row (some r) doc position now = record {
    doc = doc;
    position = position;
    created_at = r.created_at;
    updated_at = now;
  }

  unfoldable pub upsert_card :
      (Doc X → Option (Doc X))
      → UserStore X
      → Text
      → Doc X
      → Option ℕ
      → ℕ
      → Option (UserStore X × ℕ)
  upsert_card json db id doc position now =
      if is_id id
      then (let pos = get_or position (next_position db.cards) in
          some (
            record db { cards = set db.cards id (card_row (get db.cards id) (json doc) pos now) },
            pos,
          ))
      else none

  unfoldable pub own_target : Option (Value X) → List Text
  own_target (some (text (c ∷ s))) = (c ∷ s) ∷ []
  own_target _ = []

  -- The loop over `card?.children || []`; a text is iterated by its characters, and what cannot be
  -- iterated throws.
  unfoldable pub children : Option (Value X) → Option (List Text)
  children none = some []
  children (some nothing) = some []
  children (some (text s)) = some (map (λ c. c ∷ []) s)
  children (some (flag false)) = some []
  children (some (flag true)) = none
  children (some (texts xs)) = some (only_texts xs)
  children (some (other x)) = none

  -- cardTargets
  unfoldable pub card_targets : Doc X → Option (List Text)
  card_targets card =
      map_option (λ cs. own_target (get card (codes "target")) ++ cs)
        (children (get card (codes "children")))

  -- The ids of the cards that refer to a target.
  unfoldable pub cards_of : Text → List (Text × Doc X) → Option (List Text)
  cards_of tid [] = some []
  cards_of tid ((id, doc) ∷ cs) = elim (card_targets doc) [
    | none ↦ none
    | some ids ↦
        map_option (λ rest. if any (λ (t : Text). t == tid) ids then id ∷ rest else rest)
          (cards_of tid cs)
  ]

  unfoldable pub delete_all : JsMap Text (CardRow X) → List Text → JsMap Text (CardRow X)
  delete_all m [] = m
  delete_all m (id ∷ ids) = delete_all (delete m id) ids

  -- The target and its cards go, and how many rows of each.
  unfoldable pub delete_target : UserStore X → Text → Option (UserStore X × ℕ × ℕ)
  delete_target db tid =
      map_option
        (λ ids. (
          record db { targets = delete db.targets tid; cards = delete_all db.cards ids },
          (if has db.targets tid then 1 else 0),
          length ids,
        ))
        (cards_of tid (list_cards db))

  unfoldable pub delete_card : UserStore X → Text → UserStore X × ℕ
  delete_card db id = (record db { cards = delete db.cards id }, if has db.cards id then 1 else 0)

  unfoldable pub set_enabled : UserStore X → Text → Bool → ℕ → UserStore X × ℕ
  set_enabled db id enabled now = elim (get db.targets id) [
    | none ↦ (db, 0)
    | some r ↦ (
      record db { targets = set db.targets id (record r { enabled = enabled; updated_at = now }) },
      1,
    )
  ]
