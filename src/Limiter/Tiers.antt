-- ===== src/Limiter/Tiers.antt =====
-- The two tiers of LoginLimiter (server/auth.js): what one client's failures do to others.
use home_net_hub.Prelude.{
  ℕ, ◌+◌, ◌*◌, ◌≤◌, ◌<◌, ◌≡◌, ap, ◌∙◌, ◌≢◌, none, some, List, [], ◌∷◌, arith, leb, if◌then◌else◌,
  lt→ltb, length, All, nat_eq, string_eq, list_eq, option_eq, pair_eq, list_beq_iff,
}
use mathlib.Core.Bool.{false≢true}
use home_net_hub.Text.{Text}
use home_net_hub.JsMap.{get, get-set_self, get-set_ne, get-delete_self, get-delete_ne, length-set}
use home_net_hub.Limiter.{
  Bucket, Buckets, open_gate, peer_window_ms, bucket_cap, client_key, peer_key, current, check,
  fail, count_client, count_peer, peer_failed, lock_left, gate, succeed,
}
use home_net_hub.Limiter.Size.{prune_small}

client_key_ne : (client peer : Text) → client_key client ≢ peer_key peer
client_key_ne client peer e = false≢true ((list_beq_iff (client_key client) (peer_key peer)).1 e)

get-count_others :
    (m : Buckets) (client peer key : Text) (t : ℕ)
    → client_key client ≢ key
    → peer_key peer ≢ key
    → get (count_peer (count_client m client t) peer t) key ≡ get m key
unfolding count_peer count_client
get-count_others m client peer key t nc np =
    get-set_ne _ (peer_key peer) key _ np ∙ get-set_ne m (client_key client) key _ nc

count_size :
    (m : Buckets) (client peer : Text) (t : ℕ)
    → length (count_peer (count_client m client t) peer t) ≤ length m + 2
unfolding count_client count_peer
count_size m client peer t = omega (
  arith,
  length-set m (client_key client) _,
  length-set (count_client m client t) (peer_key peer) _,
)

fail-small :
    (m : Buckets) (client peer : Text) (t : ℕ)
    → length m + 2 ≤ bucket_cap
    → (fail m client peer t).0 ≡ count_peer (count_client m client t) peer t
unfolding fail check
fail-small m client peer t h = prune_small t _ (omega (arith, count_size m client peer t))

-- While the map has room, a failure touches the buckets of its own client and peer alone: every
-- other key keeps its count and its lock.
pub fail-others :
    (m : Buckets) (client peer key : Text) (t : ℕ)
    → length m + 2 ≤ bucket_cap
    → client_key client ≢ key
    → peer_key peer ≢ key
    → get (fail m client peer t).0 key ≡ get m key
fail-others m client peer key t h nc np =
    ap (λ b. get b key) (fail-small m client peer t h) ∙ get-count_others m client peer key t nc np

-- A success forgets that client's failures and no others: the peer tier stays as it is.
pub succeed-tiers :
    (m : Buckets) (client peer key : Text)
    → client_key client ≢ key
    → (get (succeed m client) (client_key client) ≡ none)
      × (get (succeed m client) (peer_key peer) ≡ get m (peer_key peer))
      × (get (succeed m client) key ≡ get m key)
unfolding succeed
succeed-tiers m client peer key n = (
  get-delete_self m (client_key client),
  get-delete_ne m (client_key client) (peer_key peer) (client_key_ne client peer),
  get-delete_ne m (client_key client) key n,
)

-- Failures through one peer from an empty limiter, each of some client: the first, then the others
-- with the latest first.
abbrev pub failed_through : Text → Text → ℕ → List (Text × ℕ) → Buckets
failed_through peer c0 t0 [] = (fail [] c0 peer t0).0
failed_through peer c0 t0 ((c, t) ∷ earlier) = (fail (failed_through peer c0 t0 earlier) c peer t).0

abbrev pub last_failure : ℕ → List (Text × ℕ) → ℕ
last_failure t0 [] = t0
last_failure t0 (a ∷ earlier) = a.1

abbrev pub peer_lock_until : ℕ → ℕ → ℕ
peer_lock_until n t = if leb n 30 then 0 else t + 60000

peer_bucket : ℕ → ℕ → ℕ → Bucket
peer_bucket t0 n t = record { fails = n; first = t0; until = peer_lock_until n t }

get-count_peer :
    (m : Buckets) (client peer : Text) (t : ℕ)
    → get (count_peer (count_client m client t) peer t) (peer_key peer)
      ≡ some (peer_failed (current (get m (peer_key peer)) peer_window_ms t) t)
unfolding count_peer count_client
get-count_peer m client peer t =
    get-set_self _ (peer_key peer) _
    ∙ ap (λ o. some (peer_failed (current o peer_window_ms t) t))
        (get-set_ne m (client_key client) (peer_key peer) _ (client_key_ne client peer))

peer_step :
    (t0 n t t' : ℕ)
    → t' ≤ t0 + peer_window_ms
    → peer_failed (current (some (peer_bucket t0 n t)) peer_window_ms t') t'
      ≡ peer_bucket t0 (n + 1) t'
unfolding current peer_failed peer_bucket
peer_step t0 n t t' h = ground arith

first_through :
    (peer c0 : Text) (t0 : ℕ)
    → get (fail [] c0 peer t0).0 (peer_key peer) ≡ some (peer_bucket t0 1 t0)
unfolding get current peer_failed peer_bucket
first_through peer c0 t0 =
    ap (λ m. get m (peer_key peer)) (fail-small [] c0 peer t0 (omega arith))
    ∙ get-count_peer [] c0 peer t0

through-size :
    (peer c0 : Text) (t0 : ℕ) (later : List (Text × ℕ))
    → 2 * length later + 2 ≤ bucket_cap
    → length (failed_through peer c0 t0 later) ≤ 2 * length later + 2
through-size peer c0 t0 [] h =
    omega (arith, ap length (fail-small [] c0 peer t0 (omega arith)), count_size [] c0 peer t0)
through-size peer c0 t0 (a ∷ earlier) h =
    let m = failed_through peer c0 t0 earlier in
    let k = through-size peer c0 t0 earlier (omega arith) in
    omega (arith, ap length (fail-small m a.0 peer a.1 (omega arith)), count_size m a.0 peer a.1, k)

abbrev pub InPeerWindow : ℕ → List (Text × ℕ) → Type 0
InPeerWindow t0 later = All (λ a. a.1 ≤ t0 + peer_window_ms) later

through-bucket :
    (peer c0 : Text) (t0 : ℕ) (later : List (Text × ℕ))
    → 2 * length later + 4 ≤ bucket_cap
    → InPeerWindow t0 later
    → get (failed_through peer c0 t0 later) (peer_key peer)
      ≡ some (peer_bucket t0 (length later + 1) (last_failure t0 later))
through-bucket peer c0 t0 [] h w = first_through peer c0 t0
through-bucket peer c0 t0 (a ∷ earlier) h w =
    let m = failed_through peer c0 t0 earlier in
    let k = through-size peer c0 t0 earlier (omega arith) in
    let n : length earlier + 1 + 1 ≡ length (a ∷ earlier) + 1 = omega arith in
    ap (λ b. get b (peer_key peer)) (fail-small m a.0 peer a.1 (omega arith))
    ∙ get-count_peer m a.0 peer a.1
    ∙ ap (λ o. some (peer_failed (current o peer_window_ms a.1) a.1))
        (through-bucket peer c0 t0 earlier (omega arith) w.1)
    ∙ ap some (peer_step t0 (length earlier + 1) (last_failure t0 earlier) a.1 w.0)
    ∙ ap (λ i. some (peer_bucket t0 i a.1)) n

check-locked_peer :
    (m : Buckets) (client peer : Text) (t : ℕ) (b : Bucket)
    → length m ≤ bucket_cap
    → get m (peer_key peer) ≡ some b
    → t < b.until
    → (check m client peer t).1 ≢ open_gate
unfolding check gate lock_left
check-locked_peer m client peer t b s e l h =
    ground (arith, ap (λ k. get k (peer_key peer)) (prune_small t m s), e, lt→ltb t b.until)

-- Clients guessing in concert: from an empty limiter, after more than thirty failures within a minute
-- of the first, all through one socket peer and by any clients, no client at all gets past the gate
-- through that peer for a minute from the last. The failures are at most 2047, so that the cap of
-- 4096 buckets evicts none, and nothing else touches the limiter.
pub check-failed_through :
    (peer c0 : Text) (t0 : ℕ) (later : List (Text × ℕ)) (client : Text) (t : ℕ)
    → 2 * length later + 4 ≤ bucket_cap
    → InPeerWindow t0 later
    → 30 ≤ length later
    → t < last_failure t0 later + 60000
    → (check (failed_through peer c0 t0 later) client peer t).1 ≢ open_gate
unfolding peer_bucket
check-failed_through peer c0 t0 later client t h w n l =
    check-locked_peer (failed_through peer c0 t0 later) client peer t _
      (omega (arith, through-size peer c0 t0 later (omega arith)))
      (through-bucket peer c0 t0 later h w) (ground arith)
