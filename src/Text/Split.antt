-- ===== src/Text/Split.antt =====
-- String.prototype.split and Array.prototype.join at one character.
use home_net_hub.Prelude.{
  ℕ, ◌≡◌, refl, ap, ◌∙◌, inl, inr, false, List, [], ◌∷◌, ◌++◌, arith, nat_beq, if◌then◌else◌,
  nat_beq_iff, Bool-cases, All, nat_eq, string_eq, list_eq, option_eq,
}
use home_net_hub.Text.{Text}

cons_first : ℕ → List Text → List Text
cons_first x [] = (x ∷ []) ∷ []
cons_first x (w ∷ ws) = (x ∷ w) ∷ ws

-- s.split(c): one part more than `s` has the character.
unfoldable pub split : ℕ → Text → List Text
unfolding cons_first
split c [] = [] ∷ []
split c (x ∷ s) = let rest = split c s in if nat_beq x c then [] ∷ rest else cons_first x rest

-- parts.join(c)
unfoldable pub join : ℕ → List Text → Text
join c [] = []
join c (w ∷ []) = w
join c (w ∷ v ∷ ws) = w ++ (c ∷ join c (v ∷ ws))

abbrev pub Lacks : ℕ → Text → Type 0
Lacks c s = All (λ x. nat_beq x c ≡ false) s

split-ne_nil : (c : ℕ) (s : Text) → (w : Text) × (ws : List Text) × (split c s ≡ w ∷ ws)
unfolding split
split-ne_nil c [] = ([], [], refl)
split-ne_nil c (x ∷ s) = elim (Bool-cases (nat_beq x c)) [
  | inl e ↦ ([], split c s, rw e)
  | inr e ↦ let (w, ws, h) = split-ne_nil c s in (x ∷ w, ws, ground (arith, h, e))
]

join-cons_first :
    (c x : ℕ) (w : Text) (ws : List Text) → join c (cons_first x (w ∷ ws)) ≡ x ∷ join c (w ∷ ws)
unfolding join split
join-cons_first c x w [] = refl
join-cons_first c x w (v ∷ ws) = refl

-- Joining the parts of a text at the character it was split at gives the text back.
pub join-split : (c : ℕ) (s : Text) → join c (split c s) ≡ s
unfolding split join
join-split c [] = refl
join-split c (x ∷ s) =
    let (w, ws, h) = split-ne_nil c s in
    ground (arith, h, join-split c s, join-cons_first c x w ws, nat_beq_iff x c)

-- The first part ends at the first separator.
pub split-append : (c : ℕ) (w s : Text) → Lacks c w → split c (w ++ (c ∷ s)) ≡ w ∷ split c s
unfolding split
split-append c [] s h = ground (arith, nat_beq_iff c c)
split-append c (x ∷ w) s h = ground (arith, split-append c w s h.1)

pub split_single : (c : ℕ) (w : Text) → Lacks c w → split c w ≡ w ∷ []
unfolding split
split_single c [] h = refl
split_single c (x ∷ w) h = ground (arith, split_single c w h.1)

-- Parts that lack the character come back from their joined text.
pub split-join :
    (c : ℕ) (w : Text) (ws : List Text)
    → All (Lacks c) (w ∷ ws)
    → split c (join c (w ∷ ws)) ≡ w ∷ ws
unfolding join
split-join c w [] h = split_single c w h.0
split-join c w (v ∷ ws) h =
    split-append c w (join c (v ∷ ws)) h.0 ∙ ap (λ r. w ∷ r) (split-join c v ws h.1)

-- Splitting a text at a separator in it gives the parts of both sides.
pub split-append_sep : (c : ℕ) (w s : Text) → split c (w ++ (c ∷ s)) ≡ split c w ++ split c s
unfolding split
split-append_sep c [] s = ground (arith, nat_beq_iff c c)
split-append_sep c (x ∷ w) s =
    let (u, us, h) = split-ne_nil c w in
    elim (Bool-cases (nat_beq x c)) [
      | inl e ↦ rw e (ap (λ r. [] ∷ r) (split-append_sep c w s))
      | inr e ↦ rw (e, split-append_sep c w s, h) refl
    ]
