-- ===== src/ClientIp/Walk.antt =====
-- The walk over the forwarding chain finds the rightmost hop that is no trusted proxy.
use mathlib.Core.List.{reverse, reverse-append, reverse-cons, append_assoc}
use home_net_hub.Prelude.{
  ◌≡◌, refl, Bool, true, false, ◌||◌, some, List, [], ◌∷◌, ◌++◌, arith, if◌then◌else◌, if-elim, any,
  All, All-append, ◌==◌, beq_refl, nat_eq, string_eq, list_eq,
}
use home_net_hub.Text.{Text}
use home_net_hub.ClientIp.{
  Headers, Client, Via, direct, proxy, proxy_only, unknown, cloudflare, is_trusted, is_loopback,
  looks_like_ip, walk, behind_tunnel, norm_ip, header_text,
}

-- A hop that the walk passes over.
abbrev pub IsPassed : List Text → Text → Type 0
IsPassed trusted hop = (is_trusted trusted hop ≡ true) × (is_loopback hop ≡ false)

-- What the walk answers at a hop that it does not pass.
unfoldable pub answer_at : Headers → Text → Client
answer_at h hop = if is_loopback hop then behind_tunnel h else record { ip = hop; via = proxy }

walk-append :
    (trusted : List Text) (h : Headers) (p : Text) (xs ys : List Text)
    → All (IsPassed trusted) xs
    → walk trusted h p (xs ++ ys) ≡ walk trusted h p ys
unfolding walk
walk-append trusted h p [] ys a = refl
walk-append trusted h p (x ∷ xs) ys a = ground (arith, walk-append trusted h p xs ys a.1, a.0)

reverse-All :
    (trusted : List Text) (xs : List Text)
    → All (IsPassed trusted) xs
    → All (IsPassed trusted) (reverse xs)
reverse-All trusted [] a = tt
reverse-All trusted (x ∷ xs) a =
    rw (reverse-cons x xs)
      (All-append (IsPassed trusted) (reverse xs) (x ∷ []) (reverse-All trusted xs a.1) (a.0, tt))

walk_stop :
    (trusted : List Text) (h : Headers) (p hop : Text) (rest : List Text)
    → ¬ IsPassed trusted hop
    → walk trusted h p (hop ∷ rest) ≡ answer_at h hop
unfolding walk answer_at
walk_stop trusted h p hop rest n = ground (arith, n)

reverse_around :
    (before : List Text) (hop : Text) (after : List Text)
    → reverse (before ++ (hop ∷ after)) ≡ reverse after ++ (hop ∷ reverse before)
reverse_around before hop after =
    rw (reverse-append, reverse-cons) (append_assoc (reverse after) (hop ∷ []) (reverse before))

-- Whatever stands to the left, the walk answers at the rightmost hop that is not a trusted proxy
-- (or is loopback): hops to its left, which a client can forge, change nothing.
pub walk_rightmost :
    (trusted : List Text) (h : Headers) (p : Text) (before : List Text) (hop : Text)
    (after : List Text)
    → All (IsPassed trusted) after
    → ¬ IsPassed trusted hop
    → walk trusted h p (reverse (before ++ (hop ∷ after))) ≡ answer_at h hop
walk_rightmost trusted h p before hop after a n =
    rw
      (
        reverse_around before hop after,
        walk-append trusted h p (reverse after) (hop ∷ reverse before)
            (reverse-All trusted after a),
      )
      (walk_stop trusted h p hop (reverse before) n)

-- What an address found by the walk over `hops` is worth, by how it was found.
abbrev pub Found : List Text → Text → List Text → Text → Via → Type 0
Found trusted p hops ip direct = ⊥
Found trusted p hops ip proxy =
    (is_trusted trusted ip ≡ false) × (is_loopback ip ≡ false) × (any (λ t. ip == t) hops ≡ true)
Found trusted p hops ip cloudflare = (looks_like_ip ip ≡ true) × (any is_loopback hops ≡ true)
Found trusted p hops ip proxy_only = (ip ≡ p) × All (IsPassed trusted) hops
Found trusted p hops ip unknown = (ip ≡ []) × (any is_loopback hops ≡ true)

abbrev pub IsFound : List Text → Text → List Text → Client → Type 0
IsFound trusted p hops c = Found trusted p hops c.ip c.via

behind_tunnel-IsFound :
    (trusted : List Text) (h : Headers) (p hop : Text) (rest : List Text)
    → is_loopback hop ≡ true
    → IsFound trusted p (hop ∷ rest) (behind_tunnel h)
unfolding behind_tunnel
behind_tunnel-IsFound trusted h p hop rest e =
    let cf = norm_ip (some (header_text h.cf_connecting_ip)) in
    if-elim (IsFound trusted p (hop ∷ rest)) (looks_like_ip cf)
      (record { ip = cf; via = cloudflare }) (record { ip = []; via = unknown }) (λ l. (l, rw e))
      (λ l. (refl, rw e))

or_true : (a b : Bool) → b ≡ true → (a || b) ≡ true
or_true a b h = ground arith

Found-cons :
    (trusted : List Text) (p hop : Text) (rest : List Text) (ip : Text) (v : Via)
    → IsPassed trusted hop
    → Found trusted p rest ip v
    → Found trusted p (hop ∷ rest) ip v
Found-cons trusted p hop rest ip direct i f = f
Found-cons trusted p hop rest ip proxy i f = (f.0, f.1, or_true (ip == hop) _ f.2)
Found-cons trusted p hop rest ip cloudflare i f = (f.0, or_true (is_loopback hop) _ f.1)
Found-cons trusted p hop rest ip proxy_only i f = (f.0, (i, f.1))
Found-cons trusted p hop rest ip unknown i f = (f.0, or_true (is_loopback hop) _ f.1)

pub walk-IsFound :
    (trusted : List Text) (h : Headers) (p : Text) (hops : List Text)
    → IsFound trusted p hops (walk trusted h p hops)
unfolding walk
walk-IsFound trusted h p [] = (refl, tt)
walk-IsFound trusted h p (hop ∷ rest) =
    if-elim (IsFound trusted p (hop ∷ rest)) (is_loopback hop) _ _
      (λ l. behind_tunnel-IsFound trusted h p hop rest l)
      (λ l.
        if-elim (IsFound trusted p (hop ∷ rest)) (is_trusted trusted hop) _ _
          (λ t. Found-cons trusted p hop rest _ _ (t, l) (walk-IsFound trusted h p rest))
          (λ t. (t, l, ground (arith, beq_refl hop))))
