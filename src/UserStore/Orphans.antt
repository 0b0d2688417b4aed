-- ===== src/UserStore/Orphans.antt =====
-- Deleting a target in server/store/user_store.js takes the cards that refer to it along.
use home_net_hub.Prelude.{
  ◌≡◌, sym, ap, ◌∙◌, inl, inr, Bool, some, List, [], ◌∷◌, if◌then◌else◌, Bool-cases, if-elim, ◌==◌,
  beq_true, nat_eq, string_eq, list_eq, option_eq, pair_eq,
}
use mathlib.Core.List.{Memᴰ}
use home_net_hub.Text.{Text}
use home_net_hub.JsMap.{JsMap, get}
use home_net_hub.UserStore.{UserStore, insert_sorted, sorted}

pub get-Memᴰ : {V : Type 0} (m : JsMap Text V) (k : Text) (v : V) → get m k ≡ some v → Memᴰ (k, v) m
unfolding get
get-Memᴰ [] k v h = absurd (cc h)
get-Memᴰ {V} ((j, w) ∷ m) k v h = elim (Bool-cases (j == k)) [
  | inl b ↦
      let q : some w ≡ some v = sym (ap (λ x. if x then some w else get m k) b) ∙ h in
      let p : j ≡ k = beq_true j k b in
      let e : w ≡ v = cc q in
      Memᴰ.head (ap (λ (x : Text). (x, v)) (sym p) ∙ ap (λ (x : V). (j, x)) (sym e))
  | inr b ↦ Memᴰ.tail (get-Memᴰ m k v (sym (ap (λ x. if x then some w else get m k) b) ∙ h))
]

module _ {A : Type 0} (before : A → A → Bool) where
  insert_sorted-Memᴰ :
      (z x : A) (ys : List A) → Memᴰ z (x ∷ ys) → Memᴰ z (insert_sorted before x ys)
  unfolding insert_sorted
  insert_sorted-Memᴰ z x [] d = d
  insert_sorted-Memᴰ z x (y ∷ ys) (Memᴰ.head e) =
      if-elim (Memᴰ z) (before y x) (y ∷ insert_sorted before x ys) (x ∷ y ∷ ys)
        (λ _. Memᴰ.tail (insert_sorted-Memᴰ z x ys (Memᴰ.head e))) (λ _. Memᴰ.head e)
  insert_sorted-Memᴰ z x (y ∷ ys) (Memᴰ.tail (Memᴰ.head e)) =
      if-elim (Memᴰ z) (before y x) (y ∷ insert_sorted before x ys) (x ∷ y ∷ ys) (λ _. Memᴰ.head e)
        (λ _. Memᴰ.tail (Memᴰ.head e))
  insert_sorted-Memᴰ z x (y ∷ ys) (Memᴰ.tail (Memᴰ.tail d)) =
      if-elim (Memᴰ z) (before y x) (y ∷ insert_sorted before x ys) (x ∷ y ∷ ys)
        (λ _. Memᴰ.tail (insert_sorted-Memᴰ z x ys (Memᴰ.tail d))) (λ _. Memᴰ.tail (Memᴰ.tail d))

  pub sorted-Memᴰ : (z : A) (xs : List A) → Memᴰ z xs → Memᴰ z (sorted before xs)
  unfolding sorted
  sorted-Memᴰ z [] d = d
  sorted-Memᴰ z (x ∷ xs) (Memᴰ.head e) = insert_sorted-Memᴰ z x (sorted before xs) (Memᴰ.head e)
  sorted-Memᴰ z (x ∷ xs) (Memᴰ.tail d) =
      insert_sorted-Memᴰ z x (sorted before xs) (Memᴰ.tail (sorted-Memᴰ z xs d))
