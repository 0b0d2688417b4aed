-- ===== src/Counters/Examples.antt =====
-- The counters of server/collectors/nodes.js at concrete samples, and the theorems there.
use home_net_hub.Prelude.{
  ◌+◌, ◌-◌, ◌≡◌, refl, true, none, some, List, [], ◌∷◌, ◌++◌, arith, nat_eq, string_eq, list_eq,
  option_eq, pair_eq,
}
use home_net_hub.Counters.{
  Sample, Stretch, counter_increase, step, cover_of, scan, scan_value, close_scan, is_lost,
  merge_cover, merge_sorted, merge_from, sort, insert, is_proper, covered, is_in,
}
use home_net_hub.Counters.Increase.{final, counter_increase-restart}
use home_net_hub.Counters.Cover.{merge_cover-keeps}

abbrev morning : List Sample
morning = (100, some 40) ∷ (160, none) ∷ (220, some 55) ∷ []

-- The server restarted, and had counted 3 by the first scrape.
abbrev evening : List Sample
evening = (900, some 3) ∷ (960, some 10) ∷ []

whole_day : counter_increase (morning ++ evening) (some 30) ≡ 35
unfolding counter_increase step
whole_day = refl

counter_increase-restart_example :
    counter_increase (morning ++ evening) (some 30)
    ≡ (final 30 morning - 30) + final 3 ((960, some 10) ∷ [])
counter_increase-restart_example =
    counter_increase-restart 30 3 900 morning ((960, some 10) ∷ []) (omega arith, (omega arith, tt))
      (omega arith) (omega arith, tt)

-- A drop across more than five minutes leaves a hole.
hole : cover_of (morning ++ evening) (some 30) 0 1000 ≡ (0, 220) ∷ (900, 1000) ∷ []
unfolding cover_of scan scan_value close_scan is_lost
hole = refl

abbrev stretches : List Stretch
stretches = (900, 1000) ∷ (0, 220) ∷ (250, 400) ∷ (500, 500) ∷ []

merged : merge_cover stretches ≡ (0, 400) ∷ (900, 1000) ∷ []
unfolding merge_cover merge_sorted merge_from sort insert is_proper
merged = refl

at_300 : covered stretches 300 ≡ true
unfolding covered is_in
at_300 = refl

merge_cover-keeps_example : covered (merge_cover stretches) 300 ≡ true
merge_cover-keeps_example = merge_cover-keeps stretches 300 at_300
