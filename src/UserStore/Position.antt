-- ===== src/UserStore/Position.antt =====
-- What server/store/user_store.js keeps of a target that is added, and where a new card goes.
use home_net_hub.Prelude.{
  ℕ, ◌<◌, ◌≡◌, refl, sym, ap, ◌∙◌, subst, ◌≢◌, inl, inr, Bool, Option, none, some, List, [], ◌∷◌,
  map, arith, if◌then◌else◌, Bool-cases, Option-cases, if_some, ◌==◌, nat_eq, string_eq, list_eq,
  option_eq, pair_eq,
}
use home_net_hub.Text.{Text, codes}
use home_net_hub.JsMap.{JsMap, get, set, get-set_self, get-set_ne, get-delete_ne, get-delete_self}
use mathlib.Core.List.{Memᴰ}
use home_net_hub.UserStore.Orphans.{get-Memᴰ, sorted-Memᴰ}
use home_net_hub.UserStore.{
  parse_targets, list_targets, get_user_config, target_before, sorted, Doc, text, flag, UserStore,
  TargetRow, CardRow, next_position, upsert_card, upsert_target, target_row, target_body,
  config_target, card_row, is_id,
}

module _ {X : Type 0} where
  next_position-after :
      (rows : JsMap Text (CardRow X)) (id : Text) (r : CardRow X)
      → get rows id ≡ some r
      → r.position < next_position rows
  unfolding next_position get
  next_position-after [] id r h = absurd (cc h)
  next_position-after ((j, w) ∷ rows) id r h = elim (Bool-cases (j == id)) [
    | inl b ↦
        let q : some w ≡ some r = sym (ap (λ x. if x then some w else get rows id) b) ∙ h in
        let same : w ≡ r = cc q in
        let p = ap (λ (x : CardRow X). x.position) same in ground (arith, p)
    | inr b ↦
        let q : get rows id ≡ some r = sym (ap (λ x. if x then some w else get rows id) b) ∙ h in
        let ih = next_position-after rows id r q in ground (arith, ih)
  ]

  card_row-holds :
      (old : Option (CardRow X)) (doc : Option (Doc X)) (at now : ℕ)
      → ((card_row old doc at now).position ≡ at) × ((card_row old doc at now).doc ≡ doc)
  unfolding card_row
  card_row-holds none doc at now = (refl, refl)
  card_row-holds (some r) doc at now = (refl, refl)

  target_row-holds :
      (old : Option (TargetRow X)) (doc : Option (Doc X)) (enabled : Bool) (now : ℕ)
      → ((target_row old doc enabled now).doc ≡ doc)
        × ((target_row old doc enabled now).enabled ≡ enabled)
  unfolding target_row
  target_row-holds none doc enabled now = (refl, refl)
  target_row-holds (some r) doc enabled now = (refl, refl)

  -- A card that is stored without a position comes after every card that was there before; no other
  -- card is touched.
  pub upsert_card-last :
      (json : Doc X → Option (Doc X)) (db db' : UserStore X) (id other : Text) (doc : Doc X)
      (now pos : ℕ) (r : CardRow X)
      → upsert_card json db id doc none now ≡ some (db', pos)
      → id ≢ other
      → get db.cards other ≡ some r
      → (r.position < pos)
        × (get db'.cards other ≡ some r)
        × ((new : CardRow X) × (get db'.cards id ≡ some new)
            × (new.position ≡ pos)
            × (new.doc ≡ json doc))
  unfolding upsert_card
  upsert_card-last json db db' id other doc now pos r h ne e =
      let at = next_position db.cards in
      let new = card_row (get db.cards id) (json doc) at now in
      let (_, q) =
        if_some (is_id id) (some (record db { cards = set db.cards id new }, at)) (db', pos) h in
      let same : (record db { cards = set db.cards id new }, at) ≡ (db', pos) = cc q in
      let p : at ≡ pos = ap (λ (x : UserStore X × ℕ). x.1) same in
      let cards : db'.cards ≡ set db.cards id new =
        ap (λ (x : UserStore X × ℕ). x.0.cards) (sym same) in
      let before = next_position-after db.cards other r e in
      (
        subst (λ x. r.position < x) p before,
        ap (λ c. get c other) cards ∙ get-set_ne db.cards id other new ne ∙ e,
        (
          new,
          ap (λ c. get c id) cards ∙ get-set_self db.cards id new,
          (card_row-holds (get db.cards id) (json doc) at now).0 ∙ p,
          (card_row-holds (get db.cards id) (json doc) at now).1,
        ),
      )

  parse_targets-Memᴰ :
      (rows : List (Text × TargetRow X)) (id : Text) (r : TargetRow X) (doc : Doc X)
      → r.doc ≡ some doc
      → Memᴰ (id, r) rows
      → Memᴰ (id, doc, r.enabled) (parse_targets rows)
  unfolding parse_targets
  parse_targets-Memᴰ [] id r doc e d = elim d [ ]
  parse_targets-Memᴰ ((j, w) ∷ rows) id r doc e (Memᴰ.head q) =
      let parsed : w.doc ≡ some doc = ap (λ (p : Text × TargetRow X). p.1.doc) (sym q) ∙ e in
      let rest = parse_targets rows in
      subst
        (λ o.
          Memᴰ (id, doc, r.enabled) (elim o [ none ↦ rest | some x ↦ (j, x, w.enabled) ∷ rest ]))
        (sym parsed) (Memᴰ.head (ap (λ (p : Text × TargetRow X). (p.0, doc, p.1.enabled)) q))
  parse_targets-Memᴰ ((j, w) ∷ rows) id r doc e (Memᴰ.tail d) =
      let rest = parse_targets rows in
      let found = parse_targets-Memᴰ rows id r doc e d in
      let P : Option (Doc X) → Type 0 = λ o.
        Memᴰ (id, doc, r.enabled) (elim o [ none ↦ rest | some x ↦ (j, x, w.enabled) ∷ rest ]) in
      elim (Option-cases w.doc) [
        | inl n ↦ subst P (sym n) found
        | inr (x, n) ↦ subst P (sym n) (Memᴰ.tail found)
      ]

  map-Memᴰ :
      (entries : List (Text × Doc X × Bool)) (x : Text × Doc X × Bool)
      → Memᴰ x entries
      → Memᴰ (config_target x) (map config_target entries)
  map-Memᴰ [] x d = elim d [ ]
  map-Memᴰ (y ∷ entries) x (Memᴰ.head q) = Memᴰ.head (ap config_target q)
  map-Memᴰ (y ∷ entries) x (Memᴰ.tail d) = Memᴰ.tail (map-Memᴰ entries x d)

  -- A row whose document parses is listed in the configuration.
  get_user_config-Memᴰ :
      (db : UserStore X) (id : Text) (r : TargetRow X) (doc : Doc X)
      → get db.targets id ≡ some r
      → r.doc ≡ some doc
      → Memᴰ (config_target (id, doc, r.enabled)) (get_user_config db).0
  unfolding get_user_config list_targets
  get_user_config-Memᴰ db id r doc row parsed =
      map-Memᴰ (list_targets db) (id, doc, r.enabled)
        (parse_targets-Memᴰ (sorted target_before db.targets) id r doc parsed
          (sorted-Memᴰ target_before (id, r) db.targets (get-Memᴰ db.targets id r row)))

  -- { ...doc, id, enabled } over a stored body.
  config_target-fields :
      (id k : Text) (doc : Doc X) (enabled : Bool)
      → codes "id" ≢ k
      → codes "enabled" ≢ k
      → let c = config_target (id, target_body id doc, enabled) in
        (get c (codes "id") ≡ some (text id))
        × (get c (codes "enabled") ≡ some (flag enabled))
        × (get c k ≡ get doc k)
  unfolding config_target target_body
  config_target-fields id k doc enabled not_id not_enabled =
      let body = target_body id doc in
      let with_id = set body (codes "id") (text id) in
      let differ : codes "enabled" ≢ codes "id" = λ e. absurd (cc e) in
      (
        get-set_ne with_id (codes "enabled") (codes "id") (flag enabled) differ
            ∙ get-set_self body (codes "id") (text id),
        get-set_self with_id (codes "enabled") (flag enabled),
        get-set_ne with_id (codes "enabled") k (flag enabled) not_enabled
            ∙ get-set_ne body (codes "id") k (text id) not_id
            ∙ get-delete_ne (set doc (codes "id") (text id)) (codes "enabled") k not_enabled
            ∙ get-set_ne doc (codes "id") k (text id) not_id,
      )

  -- The stored body has the row's id, and no flag.
  target_body-fields :
      (id : Text) (doc : Doc X)
      → (get (target_body id doc) (codes "id") ≡ some (text id))
        × (get (target_body id doc) (codes "enabled") ≡ none)
  unfolding target_body
  target_body-fields id doc = (
    get-delete_ne (set doc (codes "id") (text id)) (codes "enabled") (codes "id")
          (λ e. absurd (cc e))
        ∙ get-set_self doc (codes "id") (text id),
    get-delete_self (set doc (codes "id") (text id)) (codes "enabled"),
  )

  -- A target that is stored comes back in the configuration. Its row has a body with the row's id and
  -- without `enabled`, whatever the document had there, and the flag; the targets of the configuration
  -- have an entry with the id and the flag for `id` and `enabled`, and any other field as the document
  -- had it. JSON.parse reads back the body that JSON.stringify wrote.
  pub upsert_target-get_user_config :
      (json : Doc X → Option (Doc X)) (db db' : UserStore X) (id k : Text) (doc : Doc X)
      (enabled : Bool) (now : ℕ)
      → json (target_body id doc) ≡ some (target_body id doc)
      → upsert_target json db id doc enabled now ≡ some db'
      → codes "id" ≢ k
      → codes "enabled" ≢ k
      → ((row : TargetRow X) × (body : Doc X) × (get db'.targets id ≡ some row)
          × (row.doc ≡ some body)
          × (row.enabled ≡ enabled)
          × (get body (codes "id") ≡ some (text id))
          × (get body (codes "enabled") ≡ none))
        × ((entry : Doc X) × Memᴰ entry (get_user_config db').0
            × (get entry (codes "id") ≡ some (text id))
            × (get entry (codes "enabled") ≡ some (flag enabled))
            × (get entry k ≡ get doc k))
  unfolding upsert_target
  upsert_target-get_user_config json db db' id k doc enabled now reads h not_id not_enabled =
      let body = target_body id doc in
      let row = target_row (get db.targets id) (json body) enabled now in
      let (_, q) =
        if_some (is_id id) (some (record db { targets = set db.targets id row })) db' h in
      let same : record db { targets = set db.targets id row } ≡ db' = cc q in
      let stored : get db'.targets id ≡ some row =
        ap (λ (x : UserStore X). get x.targets id) (sym same) ∙ get-set_self db.targets id row in
      let (holds, flagged) = target_row-holds (get db.targets id) (json body) enabled now in
      let listed = get_user_config-Memᴰ db' id row body stored (holds ∙ reads) in
      let (own, bare) = target_body-fields id doc in
      let (own_id, own_flag, kept) = config_target-fields id k doc enabled not_id not_enabled in
      (
        (row, body, stored, holds ∙ reads, flagged, own, bare),
        (
          config_target (id, body, enabled),
          subst (λ f. Memᴰ (config_target (id, body, f)) (get_user_config db').0) flagged listed,
          own_id,
          own_flag,
          kept,
        ),
      )
