-- ===== src/ClientIp/Examples.antt =====
-- The chains that the header of server/client_ip.js describes, and the theorems at them.
use home_net_hub.Prelude.{
  String, ◌≡◌, refl, ◌≢◌, inl, inr, true, none, some, [], ◌∷◌, arith, nat_eq, string_eq, list_eq,
  option_eq, pair_eq,
}
use home_net_hub.Text.{Text, codes, trim, is_space, lower}
use home_net_hub.Text.Split.{split, join}
use home_net_hub.Text.Decimal.{decimal, octet_text}
use home_net_hub.NetGuard.{allowed, dotted, quad_of, unmap, mapped_ipv4, strip_prefix}
use home_net_hub.ClientIp.{
  Headers, absent, single, cloudflare, is_trusted, is_loopback, looks_like_ip, norm_ip,
  drop_brackets, non_empty, addresses, header_text, hops_of, behind_tunnel, walk, trusted_proxies,
  resolve_client_ip, client_is_private,
}
use home_net_hub.ClientIp.Walk.{answer_at, IsPassed}
use home_net_hub.ClientIp.Resolve.{resolve_client_ip-forged, client_is_private-tunnel}

abbrev lucky : Text
lucky = codes "192.168.1.5"

abbrev chain : String → String → Headers
chain xff cf = record {
  x_forwarded_for = single (codes xff);
  x_real_ip = absent;
  cf_connecting_ip = single (codes cf);
  x_forwarded_host = absent;
  forwarded = absent;
}

default_list : trusted_proxies none ≡ lucky ∷ []
unfolding trusted_proxies addresses norm_ip drop_brackets trim is_space split unmap mapped_ipv4
    strip_prefix lower non_empty
default_list = refl

from_internet :
    resolve_client_ip (some lucky) (chain "10.0.0.7,127.0.0.1" "203.0.113.9") (lucky ∷ [])
    ≡ record { ip = codes "203.0.113.9"; via = cloudflare }
unfolding resolve_client_ip walk behind_tunnel hops_of header_text addresses norm_ip drop_brackets
    trim is_space split unmap mapped_ipv4 strip_prefix lower non_empty is_loopback looks_like_ip
    quad_of octet_text
from_internet = refl

lucky_trusted : is_trusted (lucky ∷ []) (norm_ip (some lucky)) ≡ true
unfolding norm_ip drop_brackets trim is_space unmap mapped_ipv4 strip_prefix lower
lucky_trusted = refl

loopback_hop :
    (is_loopback (norm_ip (some (codes "127.0.0.1"))) ≡ true)
    × (norm_ip (some (codes "127.0.0.1")) ≡ codes "127.0.0.1")
unfolding norm_ip drop_brackets trim is_space unmap mapped_ipv4 strip_prefix lower is_loopback
    quad_of split octet_text
loopback_hop = (refl, refl)

visitor_address :
    norm_ip (some (header_text (chain "10.0.0.7,127.0.0.1" "203.0.113.9").cf_connecting_ip))
    ≡ dotted 203 0 113 9
unfolding norm_ip header_text drop_brackets trim is_space unmap mapped_ipv4 strip_prefix lower
    dotted join decimal
visitor_address = refl

resolve_client_ip-forged_example :
    resolve_client_ip (some lucky) (chain "10.0.0.7,127.0.0.1" "203.0.113.9") (lucky ∷ [])
    ≡ answer_at (chain "10.0.0.7,127.0.0.1" "203.0.113.9") (norm_ip (some (codes "127.0.0.1")))
unfolding header_text
resolve_client_ip-forged_example =
    resolve_client_ip-forged (some lucky) (chain "10.0.0.7,127.0.0.1" "203.0.113.9") (lucky ∷ [])
      (codes "10.0.0.7") (codes "127.0.0.1") lucky_trusted refl
      (refl, (refl, (refl, (refl, (refl, (refl, (refl, (refl, (refl, tt)))))))))
      (λ e. cc (loopback_hop.1, e))
      (λ (p : IsPassed (lucky ∷ []) (norm_ip (some (codes "127.0.0.1")))). cc (loopback_hop.0, p.1))

-- As deployed: the proxy overwrites X-Forwarded-For, and one hop is left.
single_hop : hops_of (chain "127.0.0.1" "203.0.113.9") ≡ codes "127.0.0.1" ∷ []
unfolding hops_of addresses norm_ip header_text drop_brackets trim is_space split unmap mapped_ipv4
    strip_prefix lower non_empty
single_hop = refl

client_is_private-tunnel_example :
    client_is_private (some lucky) (chain "127.0.0.1" "203.0.113.9") (lucky ∷ [])
    ≢ allowed (codes "10.0.0.7")
unfolding header_text
client_is_private-tunnel_example =
    client_is_private-tunnel (some lucky) (chain "127.0.0.1" "203.0.113.9") (lucky ∷ []) []
      (codes "127.0.0.1") (codes "10.0.0.7") lucky_trusted single_hop
      (cc (loopback_hop.0, loopback_hop.1))
      (inr (
        inl (record {
          a = 203;
          b = 0;
          c = 113;
          d = 9;
          in_range = (omega arith, omega arith, omega arith, omega arith);
          public = λ p. omega arith;
          printed = visitor_address;
        })))
