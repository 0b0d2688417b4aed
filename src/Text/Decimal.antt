-- ===== src/Text/Decimal.antt =====
-- Number(s) on decimal digits, and String(n) of a natural number.
use home_net_hub.Prelude.{
  ℕ, zero, suc, ◌+◌, ◌-◌, ◌*◌, ◌/◌, ◌%◌, ◌≤◌, ◌<◌, ◌≡◌, refl, sym, subst, Bool, true, false, not,
  ◌&&◌, ◌||◌, [], ◌∷◌, ◌++◌, arith, ltb, leb, nat_beq, if◌then◌else◌, and_true, if-elim, length,
  all, All, All-append, ◌==◌, nat_eq, string_eq, list_eq, option_eq, list_beq_iff,
}
use mathlib.Core.Path.{subst₂, subst₃}
use home_net_hub.Text.{Text, is_digit, is_space}

value_from : ℕ → Text → ℕ
value_from acc [] = acc
value_from acc (c ∷ s) = value_from (acc * 10 + (c - 48)) s

-- Number(s) where `s` is decimal digits.
unfoldable pub value : Text → ℕ
unfolding value_from
value s = value_from 0 s

-- The digits of `n`, most significant first; the fuel bounds how many.
decimal_digits : ℕ → ℕ → Text
decimal_digits zero n = []
decimal_digits (suc f) n =
    let rest = decimal_digits f (n / 10) ++ ((48 + n % 10) ∷ []) in
    if ltb n 10 then (48 + n) ∷ [] else rest

-- String(n)
unfoldable pub decimal : ℕ → Text
unfolding decimal_digits
decimal n = decimal_digits (suc n) n

-- A test holds for every number under the bound.
holds_under : ℕ → (ℕ → Bool) → Bool
holds_under zero test = true
holds_under (suc bound) test = test bound && holds_under bound test

holds_under_lem :
    (bound : ℕ) (test : ℕ → Bool) (i : ℕ)
    → holds_under bound test ≡ true
    → i < bound
    → test i ≡ true
unfolding holds_under
holds_under_lem zero test i h l = absurd (omega arith)
holds_under_lem (suc bound) test i h l = ground (arith, holds_under_lem bound test i)

-- One to three digits, as `\d{1,3}` matches them.
unfoldable pub octet_text : Text → Bool
unfolding is_digit
octet_text o = leb 1 (length o) && leb (length o) 3 && all is_digit o

unfoldable pub leading_zero : Text → Bool
leading_zero (c ∷ d ∷ s) = nat_beq c b'0'
leading_zero _ = false

same : Text → Text → Bool
same s t = s == t

prints_as_octet : ℕ → Bool
prints_as_octet n =
    octet_text (decimal n)
    && not (leading_zero (decimal n))
    && nat_beq (value (decimal n)) n
    && all (λ c. not (nat_beq c b'.') && not (nat_beq c b':') && not (is_space c)) (decimal n)

octet_table : holds_under 256 prints_as_octet ≡ true
unfolding holds_under prints_as_octet octet_text leading_zero value decimal is_space
octet_table = refl

reads_back : Text → Bool
reads_back o = leading_zero o || same (decimal (value o)) o

three_digits : ℕ → ℕ → ℕ → Bool
three_digits i j k = reads_back ((48 + i) ∷ (48 + j) ∷ (48 + k) ∷ [])

digit_table :
    holds_under 10 (λ i.
      reads_back ((48 + i) ∷ [])
      && holds_under 10
          (λ j. reads_back ((48 + i) ∷ (48 + j) ∷ []) && holds_under 10 (three_digits i j)))
    ≡ true
unfolding holds_under three_digits reads_back leading_zero same value decimal
digit_table = refl

-- What the printed form of an octet is, and how it reads.
pub record IsOctetText (n : ℕ) : Type 0 where
  pub text : octet_text (decimal n) ≡ true
  pub canonical : leading_zero (decimal n) ≡ false
  pub number : value (decimal n) ≡ n
  pub plain :
      all (λ c. not (nat_beq c b'.') && not (nat_beq c b':') && not (is_space c)) (decimal n) ≡ true

pub decimal-IsOctetText : (n : ℕ) → n ≤ 255 → IsOctetText n
unfolding prints_as_octet
decimal-IsOctetText n h =
    let t = holds_under_lem 256 prints_as_octet n octet_table (omega arith) in
    record {
      text = ground (arith, t);
      canonical = ground (arith, t);
      number = ground (arith, t);
      plain = ground (arith, t);
    }

digit_split : (c : ℕ) → is_digit c ≡ true → (c ≡ 48 + (c - 48)) × (c - 48 < 10)
unfolding is_digit
digit_split c h = ground arith

two : ℕ → ℕ → Bool
two i j = reads_back ((48 + i) ∷ (48 + j) ∷ []) && holds_under 10 (three_digits i j)

one : ℕ → Bool
one i = reads_back ((48 + i) ∷ []) && holds_under 10 (two i)

one_digit : (i : ℕ) → i < 10 → one i ≡ true
unfolding one two
one_digit i h = holds_under_lem 10 one i digit_table h

one_reads : (i : ℕ) → i < 10 → reads_back ((48 + i) ∷ []) ≡ true
unfolding one
one_reads i h = (and_true (reads_back ((48 + i) ∷ [])) (holds_under 10 (two i)) (one_digit i h)).0

two_digits : (i j : ℕ) → i < 10 → j < 10 → two i j ≡ true
unfolding one
two_digits i j hi hj =
    holds_under_lem 10 (two i) j
      (and_true (reads_back ((48 + i) ∷ [])) (holds_under 10 (two i)) (one_digit i hi)).1 hj

two_reads : (i j : ℕ) → i < 10 → j < 10 → reads_back ((48 + i) ∷ (48 + j) ∷ []) ≡ true
unfolding two
two_reads i j hi hj =
    (and_true (reads_back ((48 + i) ∷ (48 + j) ∷ [])) (holds_under 10 (three_digits i j))
      (two_digits i j hi hj)).0

three_reads : (i j k : ℕ) → i < 10 → j < 10 → k < 10 → three_digits i j k ≡ true
unfolding two
three_reads i j k hi hj hk =
    holds_under_lem 10 (three_digits i j) k
      (and_true (reads_back ((48 + i) ∷ (48 + j) ∷ [])) (holds_under 10 (three_digits i j))
        (two_digits i j hi hj)).1
      hk

back : (o : Text) → reads_back o ≡ true → leading_zero o ≡ false → decimal (value o) ≡ o
unfolding reads_back same
back o h z = ground (arith, h, z, list_beq_iff (decimal (value o)) o)

back_one : (a : ℕ) → is_digit a ≡ true → reads_back (a ∷ []) ≡ true
back_one a h =
    let (e, l) = digit_split a h in
    subst (λ x. reads_back (x ∷ []) ≡ true) (sym e) (one_reads (a - 48) l)

back_two : (a b : ℕ) → is_digit a ≡ true → is_digit b ≡ true → reads_back (a ∷ b ∷ []) ≡ true
back_two a b ha hb =
    let (ea, la) = digit_split a ha in
    let (eb, lb) = digit_split b hb in
    subst₂ (λ x y. reads_back (x ∷ y ∷ []) ≡ true) (sym ea) (sym eb)
      (two_reads (a - 48) (b - 48) la lb)

back_three :
    (a b c : ℕ)
    → is_digit a ≡ true
    → is_digit b ≡ true
    → is_digit c ≡ true
    → reads_back (a ∷ b ∷ c ∷ []) ≡ true
unfolding three_digits
back_three a b c ha hb hc =
    let (ea, la) = digit_split a ha in
    let (eb, lb) = digit_split b hb in
    let (ec, lc) = digit_split c hc in
    subst₃ (λ x y w. reads_back (x ∷ y ∷ w ∷ []) ≡ true) (sym ea) (sym eb) (sym ec)
      (three_reads (a - 48) (b - 48) (c - 48) la lb lc)

-- A canonical octet is what its value prints as.
pub decimal-value :
    (o : Text) → octet_text o ≡ true → leading_zero o ≡ false → decimal (value o) ≡ o
unfolding octet_text
decimal-value [] h z = ground (arith, h)
decimal-value (a ∷ []) h z = back (a ∷ []) (back_one a (ground (arith, h))) z
decimal-value (a ∷ b ∷ []) h z =
    back (a ∷ b ∷ []) (back_two a b (ground (arith, h)) (ground (arith, h))) z
decimal-value (a ∷ b ∷ c ∷ []) h z =
    back (a ∷ b ∷ c ∷ [])
      (back_three a b c (ground (arith, h)) (ground (arith, h)) (ground (arith, h))) z
decimal-value (a ∷ b ∷ c ∷ d ∷ s) h z = ground (arith, h)

digits_of : (f n : ℕ) → All (λ c. is_digit c ≡ true) (decimal_digits f n)
unfolding decimal_digits is_digit
digits_of zero n = tt
digits_of (suc f) n =
    if-elim (All (λ c. is_digit c ≡ true)) (ltb n 10) ((48 + n) ∷ [])
      (decimal_digits f (n / 10) ++ ((48 + n % 10) ∷ [])) (λ l. (ground (arith, l), tt))
      (λ l.
        All-append (λ c. is_digit c ≡ true) (decimal_digits f (n / 10)) ((48 + n % 10) ∷ [])
          (digits_of f (n / 10)) (ground arith, tt))

digits-Lacks_dot : (s : Text) → All (λ c. is_digit c ≡ true) s → All (λ x. nat_beq x b'.' ≡ false) s
unfolding is_digit
digits-Lacks_dot [] h = tt
digits-Lacks_dot (c ∷ s) h = (ground (arith, h.0), digits-Lacks_dot s h.1)

-- A printed number has no dot.
pub decimal-Lacks_dot : (n : ℕ) → All (λ x. nat_beq x b'.' ≡ false) (decimal n)
unfolding decimal
decimal-Lacks_dot n = digits-Lacks_dot _ (digits_of (suc n) n)

value_from-append :
    (acc d : ℕ) (s : Text) → value_from acc (s ++ (d ∷ [])) ≡ value_from acc s * 10 + (d - 48)
unfolding value_from
value_from-append acc d [] = refl
value_from-append acc d (c ∷ s) = value_from-append (acc * 10 + (c - 48)) d s

value-digits : (f n : ℕ) → n < f → value_from 0 (decimal_digits f n) ≡ n
unfolding decimal_digits value_from
value-digits zero n h = absurd (omega arith)
value-digits (suc f) n h =
    if-elim (λ s. value_from 0 s ≡ n) (ltb n 10) ((48 + n) ∷ [])
      (decimal_digits f (n / 10) ++ ((48 + n % 10) ∷ [])) (λ l. omega arith)
      (λ l. ground (
        arith,
        value_from-append 0 (48 + n % 10) (decimal_digits f (n / 10)),
        value-digits f (n / 10),
      ))

-- A natural number reads back from what it prints as.
pub value-decimal : (n : ℕ) → value (decimal n) ≡ n
unfolding value decimal
value-decimal n = value-digits (suc n) n (omega arith)
