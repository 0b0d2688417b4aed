-- ===== src/Prelude/Equality.antt =====
-- Equality of keys (`===` on numbers and strings), as an interface with its law.
use Prim.Native.Nat.{ℕ}
use Prim.Native.String.{String}
use mathlib.Core.Path.{◌≡◌, refl, ap}
use mathlib.Core.Logic.{◌↔◌, ◌≢◌}
use mathlib.Core.Bool.{Bool, true, false, ◌&&◌}
use mathlib.Core.List.{List, [], ◌∷◌}
use mathlib.Core.Option.{Option, none, some}
use native.Mathlib.Omega.{arith}
use text.Mathlib.Text.{◌==◌ as str_eq}
use text.Mathlib.TextEquality.{eq_iff}
use home_net_hub.Prelude.Tests.{nat_beq, nat_beq_iff}

pub record Eq {ℓ} (A : Type ℓ) : Type ℓ where
  pub same_key : A → A → Bool
  pub same_iff : (x y : A) → (same_key x y ≡ true) ↔ (x ≡ y)

infix 50 ◌==◌
abbrev pub ◌==◌ {ℓ} : {A : Type ℓ} ⦃eq : Eq A⦄ → A → A → Bool
◌==◌ ⦃eq⦄ = eq.same_key

pub beq_refl {ℓ} : {A : Type ℓ} ⦃eq : Eq A⦄ (a : A) → (a == a) ≡ true
beq_refl ⦃eq⦄ a = (eq.same_iff a a).1 refl

pub beq_ne {ℓ} : {A : Type ℓ} ⦃eq : Eq A⦄ (a b : A) → a ≢ b → (a == b) ≡ false
beq_ne ⦃eq⦄ a b h = ground (arith, (eq.same_iff a b).0, h)

pub beq_true {ℓ} : {A : Type ℓ} ⦃eq : Eq A⦄ (a b : A) → (a == b) ≡ true → a ≡ b
beq_true ⦃eq⦄ a b h = (eq.same_iff a b).0 h

instance abbrev pub nat_eq : Eq ℕ
nat_eq = record { same_key = nat_beq; same_iff = nat_beq_iff }

instance abbrev pub string_eq : Eq String
string_eq = record { same_key = str_eq; same_iff = eq_iff }

abbrev list_beq : List ℕ → List ℕ → Bool
list_beq [] [] = true
list_beq [] (y ∷ ys) = false
list_beq (x ∷ xs) [] = false
list_beq (x ∷ xs) (y ∷ ys) = nat_beq x y && list_beq xs ys

pub list_beq_iff : (xs ys : List ℕ) → (list_beq xs ys ≡ true) ↔ (xs ≡ ys)
list_beq_iff [] [] = ((λ _. refl), (λ _. refl))
list_beq_iff [] (y ∷ ys) = ((λ h. cc), (λ h. cc))
list_beq_iff (x ∷ xs) [] = ((λ h. cc), (λ h. cc))
list_beq_iff (x ∷ xs) (y ∷ ys) =
    ((λ h. ground (arith, (list_beq_iff xs ys).0)), (λ h. ground (arith, (list_beq_iff xs ys).1)))

instance abbrev pub list_eq : Eq (List ℕ)
list_eq = record { same_key = list_beq; same_iff = list_beq_iff }

abbrev option_beq {ℓ} : {A : Type ℓ} ⦃eq : Eq A⦄ → Option A → Option A → Bool
option_beq none none = true
option_beq none (some b) = false
option_beq (some a) none = false
option_beq (some a) (some b) = a == b

pub option_beq_iff {ℓ} :
    {A : Type ℓ} ⦃eq : Eq A⦄ (x y : Option A) → (option_beq x y ≡ true) ↔ (x ≡ y)
option_beq_iff none none = ((λ _. refl), (λ _. refl))
option_beq_iff none (some b) = ((λ h. cc), (λ h. cc))
option_beq_iff (some a) none = ((λ h. cc), (λ h. cc))
option_beq_iff ⦃eq⦄ (some a) (some b) =
    ((λ h. cc ((eq.same_iff a b).0 h)), (λ h. (eq.same_iff a b).1 (cc)))

instance abbrev pub option_eq {ℓ} : {A : Type ℓ} ⦃eq : Eq A⦄ → Eq (Option A)
option_eq = record { same_key = option_beq; same_iff = option_beq_iff }

abbrev pair_beq {ℓ κ} : {A : Type ℓ} {B : Type κ} ⦃e : Eq A⦄ ⦃f : Eq B⦄ → A × B → A × B → Bool
pair_beq (a, b) (c, d) = a == c && b == d

pub pair_beq_iff {ℓ κ} :
    {A : Type ℓ} {B : Type κ} ⦃e : Eq A⦄ ⦃f : Eq B⦄ (x y : A × B) → (pair_beq x y ≡ true) ↔ (x ≡ y)
pair_beq_iff ⦃e⦄ ⦃f⦄ (a, b) (c, d) = (
  (λ h.
      pair_path a c b d ((e.same_iff a c).0 (ground (arith, h)))
        ((f.same_iff b d).0 (ground (arith, h)))),
  (λ h. ground (arith, (e.same_iff a c).1 (ap (λ p. p.0) h), (f.same_iff b d).1 (ap (λ p. p.1) h))),
)
  where
    pair_path :
        {A : Type ℓ} {B : Type κ} (a c : A) (b d : B)
        → a ≡ c
        → b ≡ d
        → ◌≡◌ {A = A × B} (a, b) (c, d)
    pair_path a c b d p q = λ i. (p i, q i)

instance abbrev pub pair_eq {ℓ κ} : {A : Type ℓ} {B : Type κ} ⦃e : Eq A⦄ ⦃f : Eq B⦄ → Eq (A × B)
pair_eq = record { same_key = pair_beq; same_iff = pair_beq_iff }
