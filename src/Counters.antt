-- ===== src/Counters.antt =====
-- The arithmetic of server/collectors/nodes.js: the local day, the increase of a counter over its
-- samples, and the stretches of time that the samples cover. Times are whole seconds; the value of a
-- sample is a natural number, or none where Number(v) is not finite.
pub mod Increase
pub mod Cover
mod Examples
use home_net_hub.Prelude.{
  ℕ, zero, suc, ◌+◌, ◌-◌, ◌*◌, ◌/◌, ◌%◌, ◌^◌, ◌≤◌, ◌<◌, min, max, String, ◌≡◌, refl, sym, ap, ◌∙◌,
  subst, ◌≢◌, ◌↔◌, ◌⊎◌, inl, inr, Bool, true, false, not, ◌&&◌, ◌||◌, Option, none, some, List, [],
  ◌∷◌, ◌++◌, map, arith, ltb, leb, nat_beq, if◌then◌else◌, ltb→lt, lt→ltb, leb→le, le→leb,
  not_leb→lt, not_ltb→le, nat_beq_iff, tests, and_true, or_false, Bool-cases, Option-cases, if-elim,
  length, take, drop, any, all, select, get_or, is_some, All, length-append, length-take,
  length-drop, length-select, All-append, Eq, ◌==◌, beq_refl, beq_ne, beq_true, nat_eq, string_eq,
  list_eq, option_eq, list_beq_iff,
}

abbrev pub tz_offset_sec : ℕ
tz_offset_sec = 8 * 3600

pub record LocalDay : Type 0 where
  pub since : ℕ
  pub midnight : ℕ

-- For a time after the first local midnight of the epoch.
unfoldable pub local_day : ℕ → LocalDay
local_day now =
    let since = (now + tz_offset_sec) % 86400 in record { since = since; midnight = now - since }

-- [ts, "v"]
abbrev pub Sample : Type 0
Sample = ℕ × Option ℕ

-- x >= prev ? x - prev : x
unfoldable pub step : ℕ → ℕ → ℕ
step prev x = if leb prev x then x - prev else x

unfoldable pub counter_increase : List Sample → Option ℕ → ℕ
counter_increase [] prev = 0
counter_increase ((t, none) ∷ samples) prev = counter_increase samples prev
counter_increase ((t, some x) ∷ samples) none = counter_increase samples (some x)
counter_increase ((t, some x) ∷ samples) (some p) = step p x + counter_increase samples (some x)

abbrev pub gap_sec : ℕ
gap_sec = 300

abbrev pub tail_sec : ℕ
tail_sec = 120

-- [a, b]
abbrev pub Stretch : Type 0
Stretch = ℕ × ℕ

-- The loop's variables.
pub record Scan : Type 0 where
  pub out : List Stretch
  pub start : ℕ
  pub last_time : ℕ
  pub last_value : Option ℕ

-- A drop across a missing stretch.
unfoldable pub is_lost : Option ℕ → ℕ → ℕ → ℕ → Bool
is_lost none x prev_time time = false
is_lost (some p) x prev_time time = ltb x p && ltb (prev_time + gap_sec) time

unfoldable pub scan_value : Scan → ℕ → ℕ → Scan
scan_value sc time x =
    if is_lost sc.last_value x sc.last_time time
    then record {
      out = if ltb sc.start sc.last_time then sc.out ++ ((sc.start, sc.last_time) ∷ []) else sc.out;
      start = time;
      last_time = time;
      last_value = some x;
    }
    else record sc { last_time = time; last_value = some x }

unfoldable pub scan : Scan → List Sample → Scan
scan sc [] = sc
scan sc ((t, none) ∷ samples) = scan sc samples
scan sc ((t, some x) ∷ samples) = scan (scan_value sc t x) samples

unfoldable pub close_scan : Scan → ℕ → List Stretch
close_scan sc end =
    sc.out ++ ((sc.start, if leb end (sc.last_time + tail_sec) then end else sc.last_time) ∷ [])

unfoldable pub cover_of : List Sample → Option ℕ → ℕ → ℕ → List Stretch
cover_of [] base from end = []
cover_of (s ∷ samples) base from end =
    close_scan
      (scan (record { out = []; start = from; last_time = from; last_value = base }) (s ∷ samples))
      end

unfoldable pub is_proper : Stretch → Bool
is_proper s = ltb s.0 s.1

-- sort((x, y) => x[0] - y[0]), which is stable
unfoldable pub insert : Stretch → List Stretch → List Stretch
insert s [] = s ∷ []
insert s (t ∷ ts) = let rest = insert s ts in if leb s.0 t.0 then s ∷ t ∷ ts else t ∷ rest

unfoldable pub sort : List Stretch → List Stretch
sort [] = []
sort (s ∷ ss) = insert s (sort ss)

-- The loop, whose last stretch is `last`.
unfoldable pub merge_from : Stretch → List Stretch → List Stretch
merge_from last [] = last ∷ []
merge_from last (s ∷ ss) =
    let joined = merge_from ((last.0, max last.1 s.1)) ss in
    let apart = merge_from s ss in if leb s.0 (last.1 + 60) then joined else last ∷ apart

unfoldable pub merge_sorted : List Stretch → List Stretch
merge_sorted [] = []
merge_sorted (s ∷ ss) = merge_from s ss

unfoldable pub merge_cover : List Stretch → List Stretch
merge_cover list = merge_sorted (sort (select is_proper list))

unfoldable pub is_in : ℕ → Stretch → Bool
is_in minute s = leb s.0 minute && ltb minute s.1

unfoldable pub covered : List Stretch → ℕ → Bool
covered cover minute = any (is_in minute) cover
