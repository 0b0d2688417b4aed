-- ===== src/NetGuard/Clients.antt =====
-- Which inbound addresses count as local: checkPrivateClient of server/net_guard.js.
use home_net_hub.Prelude.{
  ℕ, ◌≤◌, ◌≡◌, refl, sym, ap, ◌∙◌, ◌≢◌, ◌↔◌, ◌⊎◌, inl, inr, false, Option, none, some, [], ◌∷◌,
  ◌++◌, arith, nat_beq, nat_beq_iff, Bool-cases, ◌==◌, nat_eq, string_eq, list_eq,
}
use home_net_hub.Text.{Text, codes, trim, trim-eq_self, is_space, includes, NoSpace, lower}
use home_net_hub.Text.Split.{Lacks}
use home_net_hub.NetGuard.{
  allowed, dotted, unmap, mapped_ipv4, strip_prefix, mapped_prefix, check_private_ip,
  check_trimmed_client, check_private_client,
}
use home_net_hub.NetGuard.Canonical.{
  IsPrivateAddress, Private, check_private_ip-IsPrivateAddress, check_private_ip-dotted,
  dotted-NoSpace, dotted-ne_nil, dotted-Lacks_colon, quad_of-dotted,
}

abbrev pub loopback_v6 : Text
loopback_v6 = codes "::1"

check_trimmed_client_local :
    (s ip : Text) → check_trimmed_client s ≡ allowed ip → (ip ≡ loopback_v6) ⊎ IsPrivateAddress ip
unfolding check_trimmed_client
check_trimmed_client_local [] ip h = cc
check_trimmed_client_local (x ∷ xs) ip h = elim (Bool-cases ((x ∷ xs) == loopback_v6)) [
  | inl e ↦ inl (ground (arith, h, e))
  | inr e ↦ elim (Bool-cases (includes b':' (unmap (x ∷ xs)))) [
    | inl c ↦ absurd (ground (arith, h, e, c))
    | inr c ↦
        inr (check_private_ip-IsPrivateAddress (unmap (x ∷ xs)) ip (ground (arith, h, e, c))).0
  ]
]

-- A client that counts as local is IPv6 loopback or a private IPv4 address in canonical form; no
-- public address, no other IPv6 address and no missing address does.
pub check_private_client_local :
    (addr : Option Text) (ip : Text)
    → check_private_client addr ≡ allowed ip
    → (ip ≡ loopback_v6) ⊎ IsPrivateAddress ip
unfolding check_private_client
check_private_client_local none ip h = cc
check_private_client_local (some addr) ip h = check_trimmed_client_local (trim addr) ip h

Lacks-includes : (s : Text) → Lacks b':' s → includes b':' s ≡ false
unfolding includes
Lacks-includes [] h = refl
Lacks-includes (c ∷ s) h =
    ground (arith, Lacks-includes s h.1, nat_beq_iff b':' c, nat_beq_iff c b':')

module _ (a b c d : ℕ) (ra : a ≤ 255) (rb : b ≤ 255) (rc : c ≤ 255) (rd : d ≤ 255) where
  unmap-mapped : unmap (mapped_prefix ++ dotted a b c d) ≡ dotted a b c d
  unfolding unmap mapped_ipv4 strip_prefix lower
  unmap-mapped = rw (quad_of-dotted a b c d ra rb rc rd)

  mapped-NoSpace : NoSpace (mapped_prefix ++ dotted a b c d)
  unfolding is_space
  mapped-NoSpace =
      (refl, (refl, (refl, (refl, (refl, (refl, (refl, dotted-NoSpace a b c d ra rb rc rd)))))))

  check_mapped_client :
      check_private_client (some (mapped_prefix ++ dotted a b c d))
      ≡ check_private_ip (some (dotted a b c d))
  unfolding check_private_client check_trimmed_client
  check_mapped_client =
      rw (trim-eq_self (mapped_prefix ++ dotted a b c d) mapped-NoSpace, unmap-mapped)
        (rw (Lacks-includes (dotted a b c d) (dotted-Lacks_colon a b c d ra rb rc rd)))

-- The IPv4-mapped form that a dual-stack listener reports is unwrapped: it counts as local exactly
-- when the IPv4 address inside is private.
pub check_private_client-mapped :
    (a b c d : ℕ)
    → a ≤ 255
    → b ≤ 255
    → c ≤ 255
    → d ≤ 255
    → (check_private_client (some (mapped_prefix ++ dotted a b c d)) ≡ allowed (dotted a b c d))
      ↔ Private a b
check_private_client-mapped a b c d ra rb rc rd =
    rw (check_mapped_client a b c d ra rb rc rd) (check_private_ip-dotted a b c d ra rb rc rd)

unmap_plain : (x : ℕ) (s : Text) → nat_beq x b':' ≡ false → unmap (x ∷ s) ≡ x ∷ s
unfolding unmap mapped_ipv4 strip_prefix lower
unmap_plain x s h = ground (arith, h)

-- An address with no colon and no white space is judged as an outbound host is.
check_private_client_plain :
    (s : Text)
    → s ≢ []
    → NoSpace s
    → Lacks b':' s
    → check_private_client (some s) ≡ check_private_ip (some s)
unfolding check_private_client check_trimmed_client
check_private_client_plain [] n p l = absurd (n refl)
check_private_client_plain (x ∷ s) n p l =
    rw (trim-eq_self (x ∷ s) p, unmap_plain x s l.0, Lacks-includes (x ∷ s) l) (ground (arith, l.0))

pub check_private_client-dotted :
    (a b c d : ℕ)
    → a ≤ 255
    → b ≤ 255
    → c ≤ 255
    → d ≤ 255
    → check_private_client (some (dotted a b c d)) ≡ check_private_ip (some (dotted a b c d))
check_private_client-dotted a b c d ra rb rc rd =
    check_private_client_plain (dotted a b c d) (dotted-ne_nil a b c d ra rb rc rd)
      (dotted-NoSpace a b c d ra rb rc rd) (dotted-Lacks_colon a b c d ra rb rc rd)

-- A public address is no local client, whatever address it would be taken for.
pub check_private_client-public :
    (a b c d : ℕ) (ip : Text)
    → a ≤ 255
    → b ≤ 255
    → c ≤ 255
    → d ≤ 255
    → ¬ Private a b
    → check_private_client (some (dotted a b c d)) ≢ allowed ip
check_private_client-public a b c d ip ra rb rc rd n h =
    let e = sym (check_private_client-dotted a b c d ra rb rc rd) ∙ h in
    let same =
      (check_private_ip-IsPrivateAddress (dotted a b c d) ip e).1
      ∙ trim-eq_self (dotted a b c d) (dotted-NoSpace a b c d ra rb rc rd) in
    n ((check_private_ip-dotted a b c d ra rb rc rd).0 (e ∙ ap allowed same))
