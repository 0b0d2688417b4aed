-- ===== src/CredStore/Examples.antt =====
-- server/store/cred_store.js with a host that is met for the first time, and its theorem there.
use home_net_hub.Prelude.{
  ◌≡◌, refl, none, [], ◌∷◌, if◌then◌else◌, ◌==◌, nat_eq, string_eq, list_eq, option_eq, pair_eq,
}
use home_net_hub.Text.{Text, codes}
use home_net_hub.JsMap.{get}
use home_net_hub.CredStore.{CredStore, new_key, key_match, key_mismatch, check_host_key}
use home_net_hub.CredStore.HostKeys.{check_all, check_host_key-lasts}

abbrev empty_store : CredStore
empty_store = record { credentials = []; known_hosts = []; vault_meta = none }

abbrev nas : Text
nas = codes "192.168.1.9:22"

unknown_nas : get empty_store.known_hosts nas ≡ none
unfolding get
unknown_nas = refl

check_host_key-lasts_example :
    ((check_host_key empty_store nas (codes "SHA256:a") 1000).1 ≡ new_key)
    × ((check_host_key
          (check_all
            (check_host_key empty_store nas (codes "SHA256:a") 1000).0
            ((nas, codes "SHA256:b", 2000) ∷ []))
          nas
          (codes "SHA256:b")
          3000).1
        ≡ (if codes "SHA256:a" == codes "SHA256:b" then key_match else key_mismatch))
check_host_key-lasts_example =
    check_host_key-lasts empty_store nas (codes "SHA256:a") (codes "SHA256:b") 1000 3000
      ((nas, codes "SHA256:b", 2000) ∷ []) unknown_nas
