-- ===== src/Limiter.antt =====
-- LoginLimiter of server/auth.js: failures counted by client and by socket peer, with exponential
-- lock-out. The clock is an argument; times are milliseconds. `a - b > w` on times is written
-- `b + w < a`, which is the same where the clock stepped back.
pub mod Size
pub mod Locks
pub mod Tiers
mod Examples
use home_net_hub.Prelude.{
  ℕ, zero, suc, ◌+◌, ◌-◌, ◌*◌, ◌/◌, ◌%◌, ◌^◌, ◌≤◌, ◌<◌, min, max, String, ◌≡◌, refl, sym, ap, ◌∙◌,
  subst, ◌≢◌, ◌↔◌, ◌⊎◌, inl, inr, Bool, true, false, not, ◌&&◌, ◌||◌, Option, none, some, List, [],
  ◌∷◌, ◌++◌, map, arith, ltb, leb, nat_beq, if◌then◌else◌, ltb→lt, lt→ltb, leb→le, le→leb,
  not_leb→lt, not_ltb→le, nat_beq_iff, tests, and_true, or_false, Bool-cases, Option-cases, if-elim,
  length, take, drop, any, all, select, get_or, is_some, All, length-append, length-take,
  length-drop, length-select, All-append, Eq, ◌==◌, beq_refl, beq_ne, nat_eq, string_eq, list_eq,
  list_beq_iff,
}
use home_net_hub.Text.{Text, codes}
use home_net_hub.JsMap.{JsMap, get, set, delete}

abbrev pub client_max : ℕ
client_max = 5

abbrev pub client_window_ms : ℕ
client_window_ms = 60 * 1000

abbrev pub client_max_lock_ms : ℕ
client_max_lock_ms = 15 * 60 * 1000

abbrev pub peer_max : ℕ
peer_max = 30

abbrev pub peer_window_ms : ℕ
peer_window_ms = 60 * 1000

abbrev pub bucket_cap : ℕ
bucket_cap = 4096

pub record Bucket : Type 0 where
  pub fails : ℕ
  pub first : ℕ
  pub until : ℕ

abbrev pub Buckets : Type 0
Buckets = JsMap Text Bucket

pub data Gate : Type 0 where
  open_gate : Gate
  retry_after : ℕ → Gate

-- `c:${clientKey}` and `p:${peerKey}`
abbrev pub client_key : Text → Text
client_key k = codes "c:" ++ k

abbrev pub peer_key : Text → Text
peer_key k = codes "p:" ++ k

abbrev fresh_bucket : ℕ → Bucket
fresh_bucket t = record { fails = 0; first = t; until = 0 }

-- The bucket of a key: a new one when there is none, or when its window and its lock are over.
unfoldable pub current : Option Bucket → ℕ → ℕ → Bucket
current none window t = fresh_bucket t
current (some b) window t = if ltb (b.first + window) t && leb b.until t then fresh_bucket t else b

-- this.buckets holds the object, so the count that `fail` raises is in the map.
abbrev pub bucket_of : Buckets → Text → ℕ → ℕ → Bucket
bucket_of m key window t = current (get m key) window t

unfoldable pub expired : ℕ → Bucket → Bool
expired t b = leb b.until t && ltb (b.first + max client_window_ms peer_window_ms) t

unfoldable pub sweep : ℕ → Buckets → Buckets
sweep t m = select (λ e. not (expired t e.1)) m

unfoldable pub prune : ℕ → Buckets → Buckets
prune t m =
    let kept = sweep t m in
    if leb (length m) bucket_cap
    then m
    else if ltb bucket_cap (length kept)
    then drop (length kept - bucket_cap) kept
    else kept

-- ceil((until - t) / 1000) while the lock lasts.
unfoldable pub lock_left : Option Bucket → ℕ → Option ℕ
lock_left none t = none
lock_left (some b) t = if ltb t b.until then some ((b.until - t + 999) / 1000) else none

unfoldable pub gate : Option ℕ → Option ℕ → Gate
gate (some s) p = retry_after s
gate none (some s) = retry_after s
gate none none = open_gate

unfoldable pub check : Buckets → Text → Text → ℕ → Buckets × Gate
check m client peer t =
    let m' = prune t m in
    (m', gate (lock_left (get m' (client_key client)) t) (lock_left (get m' (peer_key peer)) t))

-- The client bucket after one more failure.
unfoldable pub client_failed : Bucket → ℕ → Bucket
client_failed b t =
    let fails = b.fails + 1 in
    let over = fails - client_max in
    if ltb client_max fails
    then record b {
      fails = fails;
      until = t + min (client_window_ms * 2 ^ (over - 1)) client_max_lock_ms;
    }
    else record b { fails = fails }

-- The peer bucket after one more failure.
unfoldable pub peer_failed : Bucket → ℕ → Bucket
peer_failed b t =
    let fails = b.fails + 1 in
    if ltb peer_max fails
    then record b { fails = fails; until = t + peer_window_ms }
    else record b { fails = fails }

unfoldable pub count_client : Buckets → Text → ℕ → Buckets
count_client m client t =
    set m (client_key client) (client_failed (bucket_of m (client_key client) client_window_ms t) t)

unfoldable pub count_peer : Buckets → Text → ℕ → Buckets
count_peer m peer t =
    set m (peer_key peer) (peer_failed (bucket_of m (peer_key peer) peer_window_ms t) t)

unfoldable pub fail : Buckets → Text → Text → ℕ → Buckets × Gate
fail m client peer t = check (count_peer (count_client m client t) peer t) client peer t

unfoldable pub succeed : Buckets → Text → Buckets
succeed m client = delete m (client_key client)
