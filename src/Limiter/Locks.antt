-- ===== src/Limiter/Locks.antt =====
-- How long LoginLimiter (server/auth.js) locks a client out.
use home_net_hub.Prelude.{
  ℕ, zero, suc, ◌+◌, ◌-◌, ◌*◌, ◌/◌, ◌^◌, ◌≤◌, ◌<◌, min, ◌≡◌, refl, ap, ◌∙◌, Bool, false, not,
  Option, none, some, List, [], ◌∷◌, arith, ltb, leb, if◌then◌else◌, if-elim, length, drop, select,
  All, ◌==◌, beq_refl, nat_eq, string_eq, list_eq,
}
use home_net_hub.Text.{Text}
use home_net_hub.JsMap.{get, set}
use home_net_hub.Limiter.{
  Bucket, Buckets, open_gate, retry_after, client_window_ms, client_max_lock_ms, peer_window_ms,
  bucket_cap, client_key, peer_key, prune, expired, sweep, current, check, fail, count_client,
  count_peer, client_failed, peer_failed, lock_left, gate,
}

-- A client's failures through one peer from an empty limiter: the first at `t0`, the others, the
-- latest first, at the times of the list.
abbrev pub failed_since : Text → Text → ℕ → List ℕ → Buckets
failed_since client peer t0 [] = (fail [] client peer t0).0
failed_since client peer t0 (t ∷ earlier) =
    (fail (failed_since client peer t0 earlier) client peer t).0

abbrev pub last_time : ℕ → List ℕ → ℕ
last_time t0 [] = t0
last_time t0 (t ∷ earlier) = t

abbrev pub InWindow : ℕ → List ℕ → Type 0
InWindow t0 ts = All (λ t. t ≤ t0 + client_window_ms) ts

-- When the lock after `n` failures, the last at `t`, is over: nothing up to five, then one minute,
-- doubled at each further failure up to a quarter of an hour.
abbrev pub lock_until : ℕ → ℕ → ℕ
lock_until n t = if leb n 5 then 0 else t + min (60000 * 2 ^ (n - 6)) 900000

entries : Text → Text → ℕ → ℕ → ℕ → Buckets
entries client peer t0 n t =
    (client_key client, record { fails = n; first = t0; until = lock_until n t })
    ∷ (peer_key peer, record { fails = n; first = t0; until = 0 })
    ∷ []

first_failure :
    (client peer : Text) (t0 : ℕ) → failed_since client peer t0 [] ≡ entries client peer t0 1 t0
unfolding fail check count_client count_peer get set current client_failed peer_failed prune entries
first_failure client peer t0 = refl

client_next :
    (t0 n t t' : ℕ)
    → t' ≤ t0 + client_window_ms
    → client_failed
        (current
          (some (record { fails = n; first = t0; until = lock_until n t }))
          client_window_ms
          t')
        t'
      ≡ record { fails = n + 1; first = t0; until = lock_until (n + 1) t' }
unfolding current client_failed
client_next t0 n t t' h =
    let e : n + 1 - 5 - 1 ≡ n + 1 - 6 = omega arith in
    ground (arith, ap (λ (k : ℕ). client_window_ms * 2 ^ k) e)

peer_next :
    (t0 n t' : ℕ)
    → t' ≤ t0 + client_window_ms
    → n < 30
    → peer_failed
        (current (some (record { fails = n; first = t0; until = 0 })) peer_window_ms t')
        t'
      ≡ record { fails = n + 1; first = t0; until = 0 }
unfolding current peer_failed
peer_next t0 n t' h k = ground arith

client_ne_peer : (client peer : Text) → (client_key client == peer_key peer) ≡ false
client_ne_peer client peer = refl

peer_ne_client : (client peer : Text) → (peer_key peer == client_key client) ≡ false
peer_ne_client client peer = refl

next_failure :
    (client peer : Text) (t0 n t t' : ℕ)
    → t' ≤ t0 + client_window_ms
    → n < 30
    → (fail (entries client peer t0 n t) client peer t').0 ≡ entries client peer t0 (n + 1) t'
unfolding fail check count_client count_peer get set entries prune
next_failure client peer t0 n t t' h k =
    rw (beq_refl client, beq_refl peer, client_next t0 n t t' h, peer_next t0 n t' h k)

streak :
    (client peer : Text) (t0 : ℕ) (later : List ℕ)
    → InWindow t0 later
    → length later < 30
    → failed_since client peer t0 later
      ≡ entries client peer t0 (length later + 1) (last_time t0 later)
streak client peer t0 [] w k = first_failure client peer t0
streak client peer t0 (t ∷ earlier) w k =
    let k' : length earlier + 1 < 30 = omega arith in
    let n : length earlier + 1 + 1 ≡ length (t ∷ earlier) + 1 = omega arith in
    ap (λ m. (fail m client peer t).0) (streak client peer t0 earlier w.1 (omega arith))
    ∙ next_failure client peer t0 (length earlier + 1) (last_time t0 earlier) t w.0 k'
    ∙ ap (λ k. entries client peer t0 k t) n

check-entries :
    (client peer : Text) (t0 n t t' : ℕ)
    → (check (entries client peer t0 n t) client peer t').1 ≡ (
        if ltb t' (lock_until n t)
        then retry_after ((lock_until n t - t' + 999) / 1000)
        else open_gate)
unfolding check entries prune get lock_left gate
check-entries client peer t0 n t t' = rw (beq_refl client, beq_refl peer) (ground arith)

-- Up to thirty failures of one client within a minute of its first: five leave the gate open; from
-- the sixth on it is shut for one minute after the last failure, doubled at each further failure up
-- to a quarter of an hour, with the seconds left rounded up, and open again from then on.
pub check-failed_since :
    (client peer : Text) (t0 : ℕ) (later : List ℕ) (t' : ℕ)
    → InWindow t0 later
    → length later < 30
    → (check (failed_since client peer t0 later) client peer t').1 ≡ (
        if ltb t' (lock_until (length later + 1) (last_time t0 later))
        then retry_after ((lock_until (length later + 1) (last_time t0 later) - t' + 999) / 1000)
        else open_gate)
check-failed_since client peer t0 later t' w k =
    ap (λ m. (check m client peer t').1) (streak client peer t0 later w k)
    ∙ check-entries client peer t0 (length later + 1) (last_time t0 later) t'

-- ── no lock is longer than a quarter of an hour ──

abbrev pub IsShort : ℕ → Text × Bucket → Type 0
IsShort t e = e.1.until ≤ t + client_max_lock_ms

abbrev pub AllShort : ℕ → Buckets → Type 0
AllShort t m = All (IsShort t) m

AllShort-set :
    (t : ℕ) (m : Buckets) (k : Text) (b : Bucket)
    → AllShort t m
    → b.until ≤ t + client_max_lock_ms
    → AllShort t (set m k b)
unfolding set
AllShort-set t [] k b h hb = (hb, tt)
AllShort-set t (e ∷ m) k b h hb =
    if-elim (AllShort t) (e.0 == k) ((k, b) ∷ m) (e ∷ set m k b) (λ _. (hb, h.1))
      (λ _. (h.0, AllShort-set t m k b h.1 hb))

AllShort-select :
    (t : ℕ) (p : Text × Bucket → Bool) (m : Buckets) → AllShort t m → AllShort t (select p m)
AllShort-select t p [] h = tt
AllShort-select t p (e ∷ m) h =
    if-elim (AllShort t) (p e) (e ∷ select p m) (select p m) (λ _. (h.0, AllShort-select t p m h.1))
      (λ _. AllShort-select t p m h.1)

AllShort-drop : (t n : ℕ) (m : Buckets) → AllShort t m → AllShort t (drop n m)
AllShort-drop t zero m h = h
AllShort-drop t (suc n) [] h = tt
AllShort-drop t (suc n) (e ∷ m) h = AllShort-drop t n m h.1

AllShort-prune : (t s : ℕ) (m : Buckets) → AllShort t m → AllShort t (prune s m)
unfolding prune sweep
AllShort-prune t s m h =
    let kept = AllShort-select t (λ e. not (expired s e.1)) m h in
    if-elim (AllShort t) (leb (length m) bucket_cap) m _ (λ _. h)
      (λ _.
        if-elim (AllShort t) (ltb bucket_cap (length (sweep s m))) _ (sweep s m)
          (λ _. AllShort-drop t _ _ kept) (λ _. kept))

get-AllShort :
    (t : ℕ) (m : Buckets) (k : Text) (b : Bucket)
    → AllShort t m
    → get m k ≡ some b
    → b.until ≤ t + client_max_lock_ms
unfolding get
get-AllShort t [] k b h e = cc
get-AllShort t (x ∷ m) k b h e = ground (arith, get-AllShort t m k b h.1, h.0)

current-short :
    (t w s : ℕ) (o : Option Bucket)
    → ((b : Bucket) → o ≡ some b → b.until ≤ t + client_max_lock_ms)
    → (current o w s).until ≤ t + client_max_lock_ms
unfolding current
current-short t w s none h = omega arith
current-short t w s (some b) h = ground (arith, h b refl)

client_failed-short :
    (t : ℕ) (b : Bucket)
    → b.until ≤ t + client_max_lock_ms
    → (client_failed b t).until ≤ t + client_max_lock_ms
unfolding client_failed
client_failed-short t b h = ground (arith, h)

peer_failed-short :
    (t : ℕ) (b : Bucket)
    → b.until ≤ t + client_max_lock_ms
    → (peer_failed b t).until ≤ t + client_max_lock_ms
unfolding peer_failed
peer_failed-short t b h = ground (arith, h)

-- Whatever the state, a failure leaves no client and no peer locked for longer than a quarter of an
-- hour from that moment, if none was before.
pub fail-AllShort :
    (m : Buckets) (client peer : Text) (t : ℕ) → AllShort t m → AllShort t (fail m client peer t).0
unfolding fail check count_client count_peer
fail-AllShort m client peer t h =
    let step = AllShort-set t m (client_key client) _ h (
      client_failed-short t _
        (current-short t client_window_ms t _ (λ b. get-AllShort t m (client_key client) b h))) in
    AllShort-prune t t _ (
      AllShort-set t _ (peer_key peer) _ step (
        peer_failed-short t _
          (current-short t peer_window_ms t _ (λ b. get-AllShort t _ (peer_key peer) b step))))
