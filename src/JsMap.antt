-- ===== src/JsMap.antt =====
-- JavaScript's `Map`, and a SQLite table by its primary key: entries in insertion order, at most
-- one for each key. `set` on a key that is there keeps its place, as both do.
use home_net_hub.Prelude.{
  ◌+◌, ◌≤◌, ◌≡◌, refl, ap, ◌≢◌, inl, inr, Bool, Option, none, some, List, [], ◌∷◌, arith,
  if◌then◌else◌, Bool-cases, length, select, is_some, Eq, ◌==◌, nat_eq, string_eq, list_eq,
  option_eq, pair_eq,
}

abbrev pub JsMap {ℓ κ} : Type ℓ → Type κ → Type (ℓ ⊔ κ)
JsMap K V = List (K × V)

module _ {ℓ κ} {K : Type ℓ} {V : Type κ} ⦃e : Eq K⦄ where
  unfoldable pub get : JsMap K V → K → Option V
  get [] k = none
  get ((j, v) ∷ m) k = if j == k then some v else get m k

  unfoldable pub set : JsMap K V → K → V → JsMap K V
  set [] k v = (k, v) ∷ []
  set ((j, w) ∷ m) k v = if j == k then (k, v) ∷ m else (j, w) ∷ set m k v

  unfoldable pub delete : JsMap K V → K → JsMap K V
  delete [] k = []
  delete ((j, w) ∷ m) k = let rest = delete m k in if j == k then rest else (j, w) ∷ rest

  abbrev pub has : JsMap K V → K → Bool
  has m k = is_some (get m k)

  pub get-set :
      (m : JsMap K V) (k j : K) (v : V) → get (set m k v) j ≡ (if k == j then some v else get m j)
  unfolding get set
  get-set [] k j v = refl
  get-set ((i, w) ∷ m) k j v =
      ground (arith, e.same_iff k j, e.same_iff i k, e.same_iff i j, get-set m k j v)

  pub get-delete :
      (m : JsMap K V) (k j : K) → get (delete m k) j ≡ (if k == j then none else get m j)
  unfolding get delete
  get-delete [] k j = ground arith
  get-delete ((i, w) ∷ m) k j =
      ground (arith, e.same_iff k j, e.same_iff i k, e.same_iff i j, get-delete m k j)

  pub get-set_self : (m : JsMap K V) (k : K) (v : V) → get (set m k v) k ≡ some v
  get-set_self m k v = ground (arith, get-set m k k v, e.same_iff k k)

  pub get-set_ne : (m : JsMap K V) (k j : K) (v : V) → k ≢ j → get (set m k v) j ≡ get m j
  get-set_ne m k j v h = ground (arith, get-set m k j v, e.same_iff k j)

  pub get-delete_self : (m : JsMap K V) (k : K) → get (delete m k) k ≡ none
  get-delete_self m k = ground (arith, get-delete m k k, e.same_iff k k)

  pub get-delete_ne : (m : JsMap K V) (k j : K) → k ≢ j → get (delete m k) j ≡ get m j
  get-delete_ne m k j h = ground (arith, get-delete m k j, e.same_iff k j)

  -- Keeping the entries whose keys pass a test.
  pub get-select :
      (p : K → Bool) (m : JsMap K V) (k : K)
      → get (select (λ (x : K × V). p x.0) m) k ≡ (if p k then get m k else none)
  unfolding get
  get-select p [] k = ground arith
  get-select p ((i, v) ∷ m) k =
      let ih = get-select p m k in
      elim (Bool-cases (i == k)) [
        | inl b ↦ let q = ap p ((e.same_iff i k).0 b) in ground (arith, ih, b, q)
        | inr b ↦ ground (arith, ih, b)
      ]

  pub length-set : (m : JsMap K V) (k : K) (v : V) → length (set m k v) ≤ length m + 1
  unfolding set
  length-set [] k v = omega arith
  length-set ((i, w) ∷ m) k v = ground (arith, length-set m k v)

  pub length-delete : (m : JsMap K V) (k : K) → length (delete m k) ≤ length m
  unfolding delete
  length-delete [] k = omega arith
  length-delete ((i, w) ∷ m) k = ground (arith, length-delete m k)

pub ruleset map_laws = (get-set, get-delete)
