-- ===== src/ClientIp.antt =====
-- server/client_ip.js: the real client of a request, from the socket peer and the forwarding
-- headers, and clientIsPrivate and directLanHit of server/index.js, which judge it.
-- A header is absent, one text or a list of texts; the set of trusted proxies is a list of
-- addresses. The loop over the hops runs from the right, so it is a recursion on the reversed list.
pub mod Walk
pub mod Resolve
mod Examples
use mathlib.Core.List.{reverse}
use home_net_hub.Prelude.{
  ℕ, zero, suc, ◌+◌, ◌-◌, ◌*◌, ◌/◌, ◌%◌, ◌^◌, ◌≤◌, ◌<◌, min, max, String, ◌≡◌, refl, sym, ap, ◌∙◌,
  subst, ◌≢◌, ◌↔◌, ◌⊎◌, inl, inr, Bool, true, false, not, ◌&&◌, ◌||◌, Option, none, some, List, [],
  ◌∷◌, ◌++◌, map, arith, ltb, leb, nat_beq, if◌then◌else◌, ltb→lt, lt→ltb, leb→le, le→leb,
  not_leb→lt, not_ltb→le, nat_beq_iff, tests, and_true, or_false, Bool-cases, Option-cases, length,
  take, drop, any, all, select, get_or, is_some, All, length-append, length-take, length-drop,
  length-select, All-append, Eq, ◌==◌, beq_refl, beq_ne, nat_eq, string_eq, list_eq, list_beq_iff,
}
use home_net_hub.Text.{Text, codes, trim, includes, lower, is_digit}
use home_net_hub.Text.Split.{split, join}
use home_net_hub.NetGuard.{Checked, allowed, refused, Quad, quad_of, unmap, check_private_client}

-- s.replace(/^\[|\]$/g, '')
unfoldable pub drop_first : ℕ → Text → Text
drop_first b [] = []
drop_first b (c ∷ s) = if nat_beq c b then s else c ∷ s

unfoldable pub drop_brackets : Text → Text
unfolding drop_first
drop_brackets s = reverse (drop_first b']' (reverse (drop_first b'[' s)))

unfoldable pub norm_ip : Option Text → Text
norm_ip none = []
norm_ip (some s) = unmap (drop_brackets (trim s))

abbrev is_127 : Quad → Bool
is_127 q = q.first == codes "127"

unfoldable pub is_loopback : Text → Bool
is_loopback ip =
    ip == codes "::1" || elim (quad_of (split b'.' ip)) [ none ↦ false | some q ↦ is_127 q ]

unfoldable pub is_hex_or_colon : ℕ → Bool
unfolding is_digit lower
is_hex_or_colon c = is_digit c || leb b'a' (lower c) && leb (lower c) b'f' || nat_beq c b':'

unfoldable pub looks_like_ip : Text → Bool
looks_like_ip ip = is_some (quad_of (split b'.' ip)) || all is_hex_or_colon ip && includes b':' ip

unfoldable pub non_empty : Text → Bool
non_empty [] = false
non_empty (c ∷ s) = true

-- s.split(',').map(normIp).filter(Boolean)
unfoldable pub addresses : Text → List Text
addresses s = select non_empty (map (λ p. norm_ip (some p)) (split b',' s))

abbrev pub default_trusted : Text
default_trusted = codes "192.168.1.5"

unfoldable pub trusted_proxies : Option Text → List Text
trusted_proxies none = addresses default_trusted
trusted_proxies (some raw) = addresses (if non_empty (trim raw) then raw else default_trusted)

pub data Header : Type 0 where
  absent : Header
  single : Text → Header
  many : List Text → Header

unfoldable pub header_text : Header → Text
header_text absent = []
header_text (single v) = v
header_text (many vs) = join b',' vs

pub record Headers : Type 0 where
  pub x_forwarded_for : Header
  pub x_real_ip : Header
  pub cf_connecting_ip : Header
  pub x_forwarded_host : Header
  pub forwarded : Header

pub data Via : Type 0 where
  direct proxy cloudflare proxy_only unknown : Via

pub record Client : Type 0 where
  pub ip : Text
  pub via : Via

abbrev pub is_trusted : List Text → Text → Bool
is_trusted trusted ip = any (λ t. ip == t) trusted

-- The hops, left to right: X-Forwarded-For, else X-Real-IP.
unfoldable pub hops_of : Headers → List Text
hops_of h = elim (addresses (header_text h.x_forwarded_for)) [
  | [] ↦ select non_empty (norm_ip (some (header_text h.x_real_ip)) ∷ [])
  | x ∷ xs ↦ x ∷ xs
]

-- A loopback hop is the tunnel on the proxy box: the client is CF-Connecting-IP, or unknown.
unfoldable pub behind_tunnel : Headers → Client
behind_tunnel h =
    let cf = norm_ip (some (header_text h.cf_connecting_ip)) in
    if looks_like_ip cf
    then record { ip = cf; via = cloudflare }
    else record { ip = []; via = unknown }

-- The loop over the hops, from the right.
unfoldable pub walk : List Text → Headers → Text → List Text → Client
walk trusted h p [] = record { ip = p; via = proxy_only }
walk trusted h p (hop ∷ rest) =
    let further = walk trusted h p rest in
    if is_loopback hop
    then behind_tunnel h
    else if is_trusted trusted hop
    then further
    else record { ip = hop; via = proxy }

unfoldable pub resolve_client_ip : Option Text → Headers → List Text → Client
resolve_client_ip peer h trusted =
    let p = norm_ip peer in
    if is_trusted trusted p
    then walk trusted h p (reverse (hops_of h))
    else record { ip = p; via = direct }

-- server/index.js: both the socket peer and the resolved client must be local.
unfoldable pub client_is_private : Option Text → Headers → List Text → Checked
client_is_private peer h trusted = elim (check_private_client peer) [
  | refused r ↦ refused r
  | allowed _ ↦ check_private_client (some (resolve_client_ip peer h trusted).ip)
]

-- A header that JavaScript takes for true: a text that is not empty, or any list.
unfoldable pub truthy : Header → Bool
truthy absent = false
truthy (single v) = non_empty v
truthy (many vs) = true

unfoldable pub direct_lan_hit : Option Text → Headers → Bool
direct_lan_hit peer h =
    if truthy h.x_forwarded_for
      || truthy h.x_forwarded_host
      || truthy h.x_real_ip
      || truthy h.forwarded
    then false
    else elim (check_private_client peer) [ allowed _ ↦ true | refused _ ↦ false ]
