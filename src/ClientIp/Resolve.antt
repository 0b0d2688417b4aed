-- ===== src/ClientIp/Resolve.antt =====
-- resolveClientIp and clientIsPrivate: forged prefixes, every way to resolve, internet visitors.
use mathlib.Core.List.{reverse, map-append}
use home_net_hub.Prelude.{
  ℕ, ◌≤◌, ◌≡◌, refl, sym, ap, ◌∙◌, subst, ◌≢◌, ◌⊎◌, inl, inr, Bool, true, false, Option, some, List,
  [], ◌∷◌, ◌++◌, arith, Bool-cases, if-elim, select, ◌==◌, nat_eq, string_eq, list_eq, option_eq,
  pair_eq,
}
use home_net_hub.Text.{Text, trim, codes, includes, trim-eq_self, NoSpace}
use home_net_hub.Text.Split.{split, split-append_sep, split_single, Lacks}
use home_net_hub.NetGuard.{unmap, allowed, dotted, check_private_client, check_trimmed_client}
use home_net_hub.NetGuard.Canonical.{Private}
use home_net_hub.NetGuard.Clients.{check_private_client-public}
use home_net_hub.ClientIp.{
  Headers, Client, Via, direct, is_trusted, is_loopback, non_empty, addresses, header_text, hops_of,
  behind_tunnel, walk, norm_ip, resolve_client_ip, client_is_private, looks_like_ip,
}
use home_net_hub.ClientIp.Walk.{IsPassed, answer_at, walk_rightmost, Found, walk-IsFound}

select-append {ℓ} :
    {A : Type ℓ} (p : A → Bool) (xs ys : List A) → select p (xs ++ ys) ≡ select p xs ++ select p ys
select-append p [] ys = refl
select-append p (x ∷ xs) ys = ground (arith, select-append p xs ys)

abbrev norm_part : Text → Text
norm_part p = norm_ip (some p)

addresses-append : (s t : Text) → addresses (s ++ (b',' ∷ t)) ≡ addresses s ++ addresses t
unfolding addresses
addresses-append s t =
    rw (split-append_sep b',' s t, map-append norm_part (split b',' s) (split b',' t))
      (select-append non_empty _ _)

addresses_single : (t : Text) → Lacks b',' t → norm_part t ≢ [] → addresses t ≡ norm_part t ∷ []
unfolding addresses non_empty
addresses_single t h n = rw (split_single b',' t h) (keep (norm_part t) n)
  where
    keep : (v : Text) → v ≢ [] → select non_empty (v ∷ []) ≡ v ∷ []
    keep [] n = absurd (n refl)
    keep (c ∷ v) n = refl

cons-of_append :
    (xs : List Text) (y : Text) → (x : Text) × (rest : List Text) × (xs ++ (y ∷ []) ≡ x ∷ rest)
cons-of_append [] y = (y, [], refl)
cons-of_append (x ∷ xs) y = (x, xs ++ (y ∷ []), refl)

hops_of-forged :
    (h : Headers) (forged last : Text)
    → header_text h.x_forwarded_for ≡ forged ++ (b',' ∷ last)
    → Lacks b',' last
    → norm_part last ≢ []
    → hops_of h ≡ addresses forged ++ (norm_part last ∷ [])
unfolding hops_of
hops_of-forged h forged last e l n =
    let (x, rest, c) = cons-of_append (addresses forged) (norm_part last) in
    let a : addresses (header_text h.x_forwarded_for) ≡ addresses forged ++ (norm_part last ∷ []) =
      ap addresses e
      ∙ addresses-append forged last
      ∙ ap (λ r. addresses forged ++ r) (addresses_single last l n) in
    rw (a ∙ c, hops_of) (sym c)

-- The hop that the trusted proxy wrote, the last of X-Forwarded-For, alone decides, whatever stands
-- before the comma in front of it: the answer is that hop, or at a loopback hop CF-Connecting-IP. The
-- peer is a trusted proxy, and the last hop is not empty and either loopback or no trusted proxy.
pub resolve_client_ip-forged :
    (peer : Option Text) (h : Headers) (trusted : List Text) (forged last : Text)
    → is_trusted trusted (norm_ip peer) ≡ true
    → header_text h.x_forwarded_for ≡ forged ++ (b',' ∷ last)
    → Lacks b',' last
    → norm_ip (some last) ≢ []
    → ¬ IsPassed trusted (norm_ip (some last))
    → resolve_client_ip peer h trusted ≡ answer_at h (norm_ip (some last))
unfolding resolve_client_ip
resolve_client_ip-forged peer h trusted forged last t e l n s =
    rw (t, hops_of-forged h forged last e l n)
      (walk_rightmost trusted h (norm_ip peer) (addresses forged) (norm_part last) [] tt s)

-- How each kind of answer came about.
abbrev pub Resolved : Option Text → Headers → List Text → Text → Via → Type 0
Resolved peer h trusted ip direct =
    (is_trusted trusted (norm_ip peer) ≡ false) × (ip ≡ norm_ip peer)
Resolved peer h trusted ip v =
    (is_trusted trusted (norm_ip peer) ≡ true)
    × Found trusted (norm_ip peer) (reverse (hops_of h)) ip v

Found-Resolved :
    (peer : Option Text) (h : Headers) (trusted : List Text) (ip : Text) (v : Via)
    → is_trusted trusted (norm_ip peer) ≡ true
    → Found trusted (norm_ip peer) (reverse (hops_of h)) ip v
    → Resolved peer h trusted ip v
Found-Resolved peer h trusted ip direct t f = absurd f
Found-Resolved peer h trusted ip v t f = (t, f)

-- Every answer is accounted for: `direct` is an untrusted peer's own address; `proxy` is a hop of
-- the chain that is neither a trusted proxy nor loopback; `cloudflare` and `unknown` need a
-- loopback hop, the first with an address and the second with the empty one; `proxy_only` is the
-- peer when every hop is a trusted proxy.
pub resolve_client_ip-Resolved :
    (peer : Option Text) (h : Headers) (trusted : List Text)
    → let c = resolve_client_ip peer h trusted in Resolved peer h trusted c.ip c.via
unfolding resolve_client_ip
resolve_client_ip-Resolved peer h trusted =
    if-elim (λ (c : Client). Resolved peer h trusted c.ip c.via) (is_trusted trusted (norm_ip peer))
      (walk trusted h (norm_ip peer) (reverse (hops_of h)))
      (record { ip = norm_ip peer; via = direct })
      (λ t.
        Found-Resolved peer h trusted _ _ t
          (walk-IsFound trusted h (norm_ip peer) (reverse (hops_of h))))
      (λ t. (t, refl))

client_is_private_parts :
    (peer : Option Text) (h : Headers) (trusted : List Text) (ip : Text)
    → client_is_private peer h trusted ≡ allowed ip
    → check_private_client (some (resolve_client_ip peer h trusted).ip) ≡ allowed ip
unfolding client_is_private
client_is_private_parts peer h trusted ip e = ground (arith, e)

-- A canonical IPv4 address outside the private ranges.
pub record IsPublic (ip : Text) : Type 0 where
  pub a : ℕ
  pub b : ℕ
  pub c : ℕ
  pub d : ℕ
  pub in_range : (a ≤ 255) × (b ≤ 255) × (c ≤ 255) × (d ≤ 255)
  pub public : ¬ Private a b
  pub printed : ip ≡ dotted a b c d

-- An IPv6 address other than loopback, and not the form that wraps an IPv4 address.
pub record IsOtherIpv6 (ip : Text) : Type 0 where
  pub tight : NoSpace ip
  pub colon : includes b':' (unmap ip) ≡ true
  pub other : (ip == codes "::1") ≡ false

refused_trimmed :
    (t ip : Text)
    → includes b':' (unmap t) ≡ true
    → (t == codes "::1") ≡ false
    → check_trimmed_client t ≢ allowed ip
unfolding check_trimmed_client
refused_trimmed [] ip c o e = cc e
refused_trimmed (x ∷ xs) ip c o e = ground (arith, c, o, e)

ipv6_not_local : (s ip : Text) → IsOtherIpv6 s → check_private_client (some s) ≢ allowed ip
unfolding check_private_client
ipv6_not_local s ip v h =
    refused_trimmed s ip v.colon v.other
      (ap check_trimmed_client (sym (trim-eq_self s v.tight)) ∙ h)

empty_not_local : (ip : Text) → check_private_client (some []) ≢ allowed ip
unfolding check_private_client check_trimmed_client trim
empty_not_local ip h = cc

tunnel_not_local :
    (h : Headers) (hop ip : Text)
    → is_loopback hop ≡ true
    → (looks_like_ip (norm_ip (some (header_text h.cf_connecting_ip))) ≡ false)
      ⊎ (IsPublic (norm_ip (some (header_text h.cf_connecting_ip)))
          ⊎ IsOtherIpv6 (norm_ip (some (header_text h.cf_connecting_ip))))
    → check_private_client (some (answer_at h hop).ip) ≢ allowed ip
unfolding answer_at behind_tunnel
tunnel_not_local h hop ip loop (inl e) allow = empty_not_local ip (ground (arith, e, loop, allow))
tunnel_not_local h hop ip loop (inr far) allow =
    let cf = norm_ip (some (header_text h.cf_connecting_ip)) in
    elim (Bool-cases (looks_like_ip cf)) [
      | inl y ↦ far_not_local cf far (ground (arith, y, loop, allow))
      | inr x ↦ empty_not_local ip (ground (arith, x, loop, allow))
    ]
  where
    far_not_local :
        (cf : Text) → IsPublic cf ⊎ IsOtherIpv6 cf → check_private_client (some cf) ≢ allowed ip
    far_not_local cf (inl p) e =
        check_private_client-public p.a p.b p.c p.d ip p.in_range.0 p.in_range.1 p.in_range.2
          p.in_range.3 p.public (ap (λ v. check_private_client (some v)) (sym p.printed) ∙ e)
    far_not_local cf (inr v) e = ipv6_not_local cf ip v e

resolve_client_ip-last :
    (peer : Option Text) (h : Headers) (trusted before : List Text) (hop : Text)
    → is_trusted trusted (norm_ip peer) ≡ true
    → hops_of h ≡ before ++ (hop ∷ [])
    → ¬ IsPassed trusted hop
    → resolve_client_ip peer h trusted ≡ answer_at h hop
unfolding resolve_client_ip
resolve_client_ip-last peer h trusted before hop t e s =
    rw (t, e) (walk_rightmost trusted h (norm_ip peer) before hop [] tt s)

-- A visitor from the internet: the tunnel reaches the proxy over loopback, so the last hop that the
-- headers give, of X-Forwarded-For or else X-Real-IP, is loopback, alone or behind any others. From a
-- trusted peer, with such a last hop and a CF-Connecting-IP that is no address, a public IPv4 address
-- in its usual form, or an IPv6 address other than loopback that wraps no IPv4 address, the visitor
-- never counts as local.
pub client_is_private-tunnel :
    (peer : Option Text) (h : Headers) (trusted before : List Text) (hop ip : Text)
    → is_trusted trusted (norm_ip peer) ≡ true
    → hops_of h ≡ before ++ (hop ∷ [])
    → is_loopback hop ≡ true
    → (looks_like_ip (norm_ip (some (header_text h.cf_connecting_ip))) ≡ false)
      ⊎ (IsPublic (norm_ip (some (header_text h.cf_connecting_ip)))
          ⊎ IsOtherIpv6 (norm_ip (some (header_text h.cf_connecting_ip))))
    → client_is_private peer h trusted ≢ allowed ip
client_is_private-tunnel peer h trusted before hop ip t e loop cf allow =
    tunnel_not_local h hop ip loop cf (
      subst (λ (c : Client). check_private_client (some c.ip) ≡ allowed ip)
        (resolve_client_ip-last peer h trusted before hop t e
          (λ (p : IsPassed trusted hop). cc (loop, p.1)))
        (client_is_private_parts peer h trusted ip allow))
