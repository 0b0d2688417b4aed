-- ===== src/NetGuard/Examples.antt =====
-- The guard on addresses from its comments: the ambiguous octet, the metadata endpoint, the mapped
-- form; and its theorems at such addresses.
use home_net_hub.Prelude.{
  String, ◌≡◌, refl, ◌↔◌, some, arith, nat_eq, string_eq, list_eq, option_eq, pair_eq,
}
use home_net_hub.Text.{codes, trim, is_space, lower, includes}
use home_net_hub.Text.Split.{split, join}
use home_net_hub.Text.Decimal.{value, decimal, octet_text, leading_zero}
use home_net_hub.NetGuard.{
  allowed, refused, not_ipv4, ambiguous_octet, octet_out_of_range, link_local, not_private,
  ipv6_client, dotted, quad_of, is_private, check_octets, check_matched, check_private_ip, clip,
  mapped_prefix, strip_prefix, mapped_ipv4, unmap, check_trimmed_client, check_private_client,
}
use home_net_hub.NetGuard.Canonical.{
  IsPrivateAddress, Private, check_private_ip-IsPrivateAddress, check_private_ip-dotted,
}

abbrev pub judge : String → home_net_hub.NetGuard.Checked
judge s = check_private_ip (some (codes s))

padded_host : judge "  192.168.1.5 " ≡ allowed (codes "192.168.1.5")
unfolding check_private_ip trim is_space split quad_of octet_text check_matched check_octets
    leading_zero value is_private dotted join decimal
padded_host = refl

refused_hosts :
    (judge "010.0.0.1" ≡ refused (ambiguous_octet (codes "010.0.0.1")))
    × (judge "10.0.0.256" ≡ refused (octet_out_of_range (codes "10.0.0.256")))
    × (judge "169.254.169.254" ≡ refused (link_local (codes "169.254.169.254")))
    × (judge "172.32.0.1" ≡ refused (not_private (codes "172.32.0.1")))
    × (judge "10.0.0" ≡ refused (not_ipv4 (codes "10.0.0")))
unfolding check_private_ip trim is_space split quad_of octet_text check_matched check_octets
    leading_zero value is_private dotted join decimal clip
refused_hosts = (refl, refl, refl, refl, refl)

check_private_ip-IsPrivateAddress_example :
    IsPrivateAddress (codes "192.168.1.5") × (codes "192.168.1.5" ≡ trim (codes "  192.168.1.5 "))
check_private_ip-IsPrivateAddress_example =
    check_private_ip-IsPrivateAddress (codes "  192.168.1.5 ") (codes "192.168.1.5") padded_host

check_private_ip-dotted_example :
    (check_private_ip (some (dotted 172 31 0 9)) ≡ allowed (dotted 172 31 0 9)) ↔ Private 172 31
check_private_ip-dotted_example =
    check_private_ip-dotted 172 31 0 9 (omega arith) (omega arith) (omega arith) (omega arith)

mapped_client : check_private_client (some (codes "::ffff:10.1.2.3")) ≡ allowed (codes "10.1.2.3")
unfolding check_private_client check_trimmed_client unmap mapped_ipv4 strip_prefix lower includes
    check_private_ip trim is_space split quad_of octet_text check_matched check_octets leading_zero
    value is_private dotted join decimal
mapped_client = refl
