-- ===== src/Snapshot/Examples.antt =====
-- server/store/snapshot.js for one target, whose metrics are a number, and its theorems there.
use home_net_hub.Prelude.{
  ℕ, ◌≡◌, refl, true, false, none, some, [], ◌∷◌, nat_eq, string_eq, list_eq, option_eq, pair_eq,
}
use home_net_hub.Text.{Text, codes}
use home_net_hub.JsMap.{get}
use home_net_hub.Snapshot.{Entry, Report, update}
use home_net_hub.Snapshot.Spells.{after_reports, IsDown, update-offline}

abbrev nas : Text
nas = codes "nas"

abbrev last_good : Entry ℕ Text
last_good = record {
  online = true;
  stale = false;
  at = some 1000;
  since = some 200;
  tried = none;
  metrics = 42;
  extra = none;
  error = none;
}

abbrev failure : Report ℕ Text
failure = record {
  online = false;
  metrics = none;
  extra = none;
  error = some (codes "timeout");
  tried = none;
}

abbrev success : Report ℕ Text
success = record { online = true; metrics = some 43; extra = none; error = none; tried = none }

abbrev lost_entry : Entry ℕ Text
lost_entry = record last_good { online = false; stale = true; since = some 1200 }

at_nas : get ((nas, last_good) ∷ []) nas ≡ some last_good
unfolding get
at_nas = refl

lost_nas : get ((nas, lost_entry) ∷ []) nas ≡ some lost_entry
unfolding get
lost_nas = refl

update-offline_example :
    (d : Entry ℕ Text) × (get
        (after_reports 0
          (update 0 ((nas, last_good) ∷ []) nas failure 1200)
          nas
          ((failure, 1400) ∷ []))
        nas
      ≡ some d)
    × IsDown 0 last_good 1200 d
update-offline_example =
    update-offline 0 ((nas, last_good) ∷ []) nas last_good failure 1200 ((failure, 1400) ∷ [])
      at_nas refl refl (refl, tt)
