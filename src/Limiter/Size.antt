-- ===== src/Limiter/Size.antt =====
-- The tracking map of LoginLimiter (server/auth.js) is bounded.
use home_net_hub.Prelude.{ℕ, ◌-◌, ◌≤◌, ◌≡◌, arith, length, length-drop, nat_eq, string_eq, list_eq}
use home_net_hub.Text.{Text}
use home_net_hub.JsMap.{length-delete}
use home_net_hub.Limiter.{
  Buckets, client_key, bucket_cap, sweep, prune, check, fail, count_client, count_peer, succeed,
}

pub prune-le-cap : (t : ℕ) (m : Buckets) → length (prune t m) ≤ bucket_cap
unfolding prune
prune-le-cap t m = ground (arith, length-drop (length (sweep t m) - bucket_cap) (sweep t m))

-- A map within the cap is left as it is.
pub prune_small : (t : ℕ) (m : Buckets) → length m ≤ bucket_cap → prune t m ≡ m
unfolding prune
prune_small t m h = ground arith

-- However many clients fail, the map holds at most 4096 entries after a check or a failure, and a
-- success adds none.
pub limiter_bounded :
    (m : Buckets) (client peer : Text) (t : ℕ)
    → (length (check m client peer t).0 ≤ bucket_cap)
      × (length (fail m client peer t).0 ≤ bucket_cap)
      × (length (succeed m client) ≤ length m)
unfolding check fail succeed
limiter_bounded m client peer t = (
  prune-le-cap t m,
  prune-le-cap t (count_peer (count_client m client t) peer t),
  length-delete m (client_key client),
)
