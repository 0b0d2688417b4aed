-- ===== src/Limiter/Examples.antt =====
-- LoginLimiter (server/auth.js) at concrete clients, and its theorems there.
use home_net_hub.Prelude.{
  ℕ, zero, suc, ◌+◌, ◌-◌, ◌/◌, ◌≤◌, ◌≡◌, refl, ◌≢◌, List, [], ◌∷◌, arith, ltb, if◌then◌else◌,
  length, nat_eq, string_eq, list_eq, option_eq, pair_eq,
}
use home_net_hub.Text.{Text, codes}
use home_net_hub.JsMap.{get, set}
use home_net_hub.Limiter.{
  Bucket, Buckets, open_gate, retry_after, bucket_cap, client_key, prune, current, check, fail,
  count_client, count_peer, client_failed, peer_failed, lock_left, gate, succeed,
}
use home_net_hub.Limiter.Size.{limiter_bounded}
use home_net_hub.Limiter.Locks.{failed_since, lock_until, check-failed_since}
use home_net_hub.Limiter.Tiers.{failed_through, check-failed_through}

abbrev ann : Text
ann = codes "192.168.1.20"

abbrev bob : Text
bob = codes "192.168.1.21"

abbrev lucky : Text
lucky = codes "192.168.1.5"

-- Six failures, one a second from the first at 1000.
abbrev five_more : List ℕ
five_more = 6000 ∷ 5000 ∷ 4000 ∷ 3000 ∷ 2000 ∷ []

sixth_locks : (check (failed_since ann lucky 1000 five_more) ann lucky 6500).1 ≡ retry_after 60
unfolding fail check count_client count_peer get set current client_failed peer_failed prune
    lock_left gate
sixth_locks = refl

check-failed_since_example : (check (failed_since ann lucky 1000 five_more) ann lucky 6500).1 ≡ (
    if ltb 6500 (lock_until 6 6000)
    then retry_after ((lock_until 6 6000 - 6500 + 999) / 1000)
    else open_gate)
check-failed_since_example =
    check-failed_since ann lucky 1000 five_more 6500 (omega arith) (omega arith)

limiter_bounded_example :
    (length (check [] ann lucky 5).0 ≤ bucket_cap)
    × (length (fail [] ann lucky 5).0 ≤ bucket_cap)
    × (length (succeed [] ann) ≤ length {A = Text × Bucket} [])
limiter_bounded_example = limiter_bounded [] ann lucky 5

abbrev one_locked : Buckets
one_locked = (client_key bob, record { fails = 9; first = 1000; until = 500000 }) ∷ []

-- Thirty more failures, each of another client, all in the second after 1000.
abbrev others : ℕ → List (Text × ℕ)
others zero = []
others (suc n) = ((48 + n) ∷ [], 1500) ∷ others n

check-failed_through_example :
    (check (failed_through lucky ann 1000 (others 30)) bob lucky 2000).1 ≢ open_gate
check-failed_through_example =
    check-failed_through lucky ann 1000 (others 30) bob 2000 (omega arith) (omega arith)
      (omega arith) (omega arith)
