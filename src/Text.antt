-- ===== src/Text.antt =====
-- Text as the list of its code points, with what the server does to it: String.prototype.trim,
-- split and join at one character, slice, and the decimal digits of `Number` and `String`.
pub mod Split
pub mod Decimal
use Prim.Native.Char.{code}
use home_net_hub.Prelude.{
  ℕ, zero, suc, ◌+◌, ◌-◌, ◌*◌, ◌/◌, ◌%◌, ◌^◌, ◌≤◌, ◌<◌, min, max, String, ◌≡◌, refl, sym, ap, ◌∙◌,
  subst, ◌≢◌, ◌↔◌, ◌⊎◌, inl, inr, Bool, true, false, not, ◌&&◌, ◌||◌, Option, none, some, List, [],
  ◌∷◌, ◌++◌, map, arith, ltb, leb, nat_beq, if◌then◌else◌, ltb→lt, lt→ltb, leb→le, le→leb,
  not_leb→lt, not_ltb→le, nat_beq_iff, tests, and_true, or_false, Bool-cases, Option-cases, length,
  take, drop, any, all, select, get_or, is_some, All, length-append, length-take, length-drop,
  length-select, All-append, Eq, ◌==◌, beq_refl, beq_ne, nat_eq, string_eq, list_eq, list_beq_iff,
}
use mathlib.Core.List.{reverse, reverse-cons, reverse-reverse}

abbrev pub Text : Type 0
Text = List ℕ

-- The code points of a literal.
abbrev pub codes : String → Text
codes String.[] = []
codes (String.◌∷◌ c s) = code c ∷ codes s

-- The white space and line ends that `trim` takes off.
abbrev pub space_codes : Text
space_codes =
    9 ∷ 10 ∷ 11 ∷ 12 ∷ 13 ∷ 32 ∷ 160 ∷ 5760 ∷ 8192 ∷ 8193 ∷ 8194 ∷ 8195 ∷ 8196 ∷ 8197 ∷ 8198 ∷ 8199
    ∷ 8200 ∷ 8201 ∷ 8202 ∷ 8232 ∷ 8233 ∷ 8239 ∷ 8287 ∷ 12288 ∷ 65279 ∷ []

unfoldable pub is_space : ℕ → Bool
is_space c = any (nat_beq c) space_codes

unfoldable pub trim_start : Text → Text
trim_start [] = []
trim_start (c ∷ s) = if is_space c then trim_start s else c ∷ s

unfoldable pub trim : Text → Text
unfolding trim_start
trim s = reverse (trim_start (reverse (trim_start s)))

unfoldable pub is_digit : ℕ → Bool
is_digit c = leb b'0' c && leb c b'9'

-- includes(c)
unfoldable pub includes : ℕ → Text → Bool
includes c s = any (nat_beq c) s

-- A letter in lower case, as `toLowerCase` and the flag `i` take it over ASCII.
unfoldable pub lower : ℕ → ℕ
lower c = if leb b'A' c && leb c b'Z' then c + 32 else c

abbrev pub NoSpace : Text → Type 0
NoSpace s = All (λ c. is_space c ≡ false) s

trim_start-eq_self : (s : Text) → NoSpace s → trim_start s ≡ s
unfolding trim_start
trim_start-eq_self [] h = refl
trim_start-eq_self (c ∷ s) h = ground arith

reverse-NoSpace : (s : Text) → NoSpace s → NoSpace (reverse s)
reverse-NoSpace [] h = tt
reverse-NoSpace (c ∷ s) h =
    rw (reverse-cons c s)
      (All-append (λ x. is_space x ≡ false) (reverse s) (c ∷ []) (reverse-NoSpace s h.1) (h.0, tt))

-- A text with no white space is its own trimmed form.
pub trim-eq_self : (s : Text) → NoSpace s → trim s ≡ s
unfolding trim
trim-eq_self s h =
    rw (trim_start-eq_self s h, trim_start-eq_self (reverse s) (reverse-NoSpace s h))
      (reverse-reverse s)
