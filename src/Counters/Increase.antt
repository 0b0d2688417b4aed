-- ===== src/Counters/Increase.antt =====
-- What counterIncrease and localDay of server/collectors/nodes.js count.
use home_net_hub.Prelude.{
  ℕ, ◌+◌, ◌-◌, ◌%◌, ◌≤◌, ◌<◌, ◌≡◌, refl, ap, ◌∙◌, Option, none, some, List, [], ◌∷◌, ◌++◌, arith,
  drop, nat_eq, string_eq, list_eq, option_eq, pair_eq,
}
use home_net_hub.Counters.{local_day, tz_offset_sec, Sample, step, counter_increase}

-- The local day at a time: its midnight is not in the future, less than a day ago, and a midnight of
-- Beijing time.
pub local_day-midnight :
    (now : ℕ)
    → 86400 ≤ now
    → let d = local_day now in
      (d.midnight + d.since ≡ now) × (d.since < 86400) × ((d.midnight + tz_offset_sec) % 86400 ≡ 0)
unfolding local_day
local_day-midnight now h = (omega arith, omega arith, omega arith)

-- The last finite value of the samples, or the one before them.
abbrev pub last_value : List Sample → Option ℕ → Option ℕ
last_value [] prev = prev
last_value ((t, none) ∷ samples) prev = last_value samples prev
last_value ((t, some x) ∷ samples) prev = last_value samples (some x)

-- Counting in two parts, with the last value of the first as the baseline of the second, gives the
-- same as counting all at once: no scrape counts twice and none is lost between two windows.
pub counter_increase-append :
    (before after : List Sample) (base : Option ℕ)
    → counter_increase (before ++ after) base
      ≡ counter_increase before base + counter_increase after (last_value before base)
unfolding counter_increase
counter_increase-append [] after base = omega arith
counter_increase-append ((t, none) ∷ samples) after base =
    counter_increase-append samples after base
counter_increase-append ((t, some x) ∷ samples) after none =
    counter_increase-append samples after (some x)
counter_increase-append ((t, some x) ∷ samples) after (some p) =
    omega (arith, counter_increase-append samples after (some x))

-- Every value is at least the one before.
abbrev pub Rises : ℕ → List Sample → Type 0
Rises p [] = Unit
Rises p ((t, none) ∷ samples) = Rises p samples
Rises p ((t, some x) ∷ samples) = (p ≤ x) × Rises x samples

abbrev pub final : ℕ → List Sample → ℕ
final p [] = p
final p ((t, none) ∷ samples) = final p samples
final p ((t, some x) ∷ samples) = final x samples

-- Without a restart the increase is the last value less the baseline, whatever lies between.
pub counter_increase_rising :
    (p : ℕ) (samples : List Sample)
    → Rises p samples
    → p + counter_increase samples (some p) ≡ final p samples
unfolding counter_increase step
counter_increase_rising p [] h = omega arith
counter_increase_rising p ((t, none) ∷ samples) h = counter_increase_rising p samples h
counter_increase_rising p ((t, some x) ∷ samples) h =
    ground (arith, counter_increase_rising x samples h.1, h.0)

last_value_final :
    (p : ℕ) (samples : List Sample) → last_value samples (some p) ≡ some (final p samples)
last_value_final p [] = refl
last_value_final p ((t, none) ∷ samples) = last_value_final p samples
last_value_final p ((t, some x) ∷ samples) = last_value_final x samples

restart_step :
    (p x time : ℕ) (samples : List Sample)
    → x < p
    → counter_increase ((time, some x) ∷ samples) (some p) ≡ x + counter_increase samples (some x)
unfolding counter_increase step
restart_step p x time samples h = ground arith

-- Across a restart everything counts: what the first process counted up to its last sample, and all
-- that the second did from zero. The values of each process rise, and the first value after the
-- restart is below the last before it.
pub counter_increase-restart :
    (p x : ℕ) (time : ℕ) (first second : List Sample)
    → Rises p first
    → x < final p first
    → Rises x second
    → counter_increase (first ++ ((time, some x) ∷ second)) (some p)
      ≡ (final p first - p) + final x second
counter_increase-restart p x time first second up drop again =
    let parts = counter_increase-append first ((time, some x) ∷ second) (some p) in
    let head = counter_increase_rising p first up in
    let tail = counter_increase_rising x second again in
    let end = last_value_final p first in
    let back = restart_step (final p first) x time second drop in
    let joined =
      parts
      ∙ ap (λ o. counter_increase first (some p) + counter_increase ((time, some x) ∷ second) o)
          end in
    omega (arith, joined, head, tail, back)
