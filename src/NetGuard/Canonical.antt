-- ===== src/NetGuard/Canonical.antt =====
-- What the guard of server/net_guard.js lets through: the private IPv4 addresses in canonical form.
use home_net_hub.Prelude.{
  ℕ, ◌≤◌, ◌≡◌, refl, sym, ap, ◌∙◌, ◌≢◌, ◌↔◌, ◌⊎◌, true, false, not, ◌&&◌, Option, none, some, List,
  [], ◌∷◌, arith, nat_beq, if◌then◌else◌, all, All, All-append, nat_eq, string_eq, list_eq,
}
use home_net_hub.Text.{Text, trim, trim-eq_self, is_space, NoSpace}
use home_net_hub.Text.Split.{split, join, join-split, split-join, Lacks}
use home_net_hub.Text.Decimal.{
  value, decimal, octet_text, leading_zero, decimal-value, decimal-IsOctetText,
}
use home_net_hub.NetGuard.{
  allowed, refused, link_local, not_private, Quad, quad_of, is_private, dotted, check_octets,
  check_matched, check_private_ip,
}

-- RFC 1918 and loopback, by their first two octets.
abbrev pub Private : ℕ → ℕ → Type 0
Private a b = (a ≡ 10) ⊎ (a ≡ 127) ⊎ ((a ≡ 172) × (16 ≤ b) × (b ≤ 31)) ⊎ ((a ≡ 192) × (b ≡ 168))

pub is_private_iff : (a b : ℕ) → (is_private a b ≡ true) ↔ Private a b
unfolding is_private
is_private_iff a b = ground arith

pub record IsPrivateAddress (ip : Text) : Type 0 where
  pub a : ℕ
  pub b : ℕ
  pub c : ℕ
  pub d : ℕ
  pub in_range : (a ≤ 255) × (b ≤ 255) × (c ≤ 255) × (d ≤ 255)
  pub private : Private a b
  pub printed : ip ≡ dotted a b c d

quad_of-some :
    (ws : List Text) (q : Quad)
    → quad_of ws ≡ some q
    → (ws ≡ q.first ∷ q.second ∷ q.third ∷ q.fourth ∷ [])
      × (octet_text q.first ≡ true)
      × (octet_text q.second ≡ true)
      × (octet_text q.third ≡ true)
      × (octet_text q.fourth ≡ true)
unfolding quad_of
quad_of-some (a ∷ b ∷ c ∷ d ∷ []) q h = ground arith
quad_of-some [] q h = ground arith
quad_of-some (a ∷ []) q h = ground arith
quad_of-some (a ∷ b ∷ []) q h = ground arith
quad_of-some (a ∷ b ∷ c ∷ []) q h = ground arith
quad_of-some (a ∷ b ∷ c ∷ d ∷ e ∷ ws) q h = ground arith

abbrev quad_text : Quad → Text
quad_text q = join b'.' (q.first ∷ q.second ∷ q.third ∷ q.fourth ∷ [])

abbrev Octets : Quad → Type 0
Octets q =
    (octet_text q.first ≡ true)
    × (octet_text q.second ≡ true)
    × (octet_text q.third ≡ true)
    × (octet_text q.fourth ≡ true)

record Facts (q : Quad) (ip : Text) : Type 0 where
  canonical :
      (leading_zero q.first ≡ false)
      × (leading_zero q.second ≡ false)
      × (leading_zero q.third ≡ false)
      × (leading_zero q.fourth ≡ false)
  small :
      (value q.first ≤ 255)
      × (value q.second ≤ 255)
      × (value q.third ≤ 255)
      × (value q.fourth ≤ 255)
  private : is_private (value q.first) (value q.second) ≡ true
  printed : ip ≡ dotted (value q.first) (value q.second) (value q.third) (value q.fourth)

check_octets-Facts : (s : Text) (q : Quad) (ip : Text) → check_octets s q ≡ allowed ip → Facts q ip
unfolding check_octets
check_octets-Facts s q ip h = record {
  canonical = ground (arith, h);
  small = ground (arith, h);
  private = ground (arith, h);
  printed = ground (arith, h);
}

dotted_values :
    (q : Quad) (ip : Text)
    → Octets q
    → Facts q ip
    → dotted (value q.first) (value q.second) (value q.third) (value q.fourth) ≡ quad_text q
unfolding dotted
dotted_values q ip o f = rw (
  decimal-value q.first o.0 f.canonical.0,
  decimal-value q.second o.1 f.canonical.1,
  decimal-value q.third o.2 f.canonical.2,
  decimal-value q.fourth o.3 f.canonical.3,
)

check_octets_allowed :
    (s : Text) (q : Quad) (ip : Text)
    → Octets q
    → check_octets s q ≡ allowed ip
    → IsPrivateAddress ip × (ip ≡ quad_text q)
check_octets_allowed s q ip o h =
    let f = check_octets-Facts s q ip h in
    (
      record {
        a = value q.first;
        b = value q.second;
        c = value q.third;
        d = value q.fourth;
        in_range = f.small;
        private = (is_private_iff (value q.first) (value q.second)).0 f.private;
        printed = f.printed;
      },
      f.printed ∙ dotted_values q ip o f,
    )

check_matched_allowed :
    (s : Text) (o : Option Quad) (ip : Text)
    → quad_of (split b'.' s) ≡ o
    → check_matched s o ≡ allowed ip
    → IsPrivateAddress ip × (ip ≡ s)
unfolding check_matched
check_matched_allowed s none ip e h = cc
check_matched_allowed s (some q) ip e h =
    let parts = quad_of-some (split b'.' s) q e in
    let (p, t) = check_octets_allowed s q ip (parts.1, parts.2, parts.3, parts.4) h in
    (p, t ∙ sym (ap (join b'.') parts.0) ∙ join-split b'.' s)

-- An accepted host is a private IPv4 address, and the address handed back to connect to is exactly
-- the host's text without its surrounding white space: the check and the connection agree.
pub check_private_ip-IsPrivateAddress :
    (host ip : Text)
    → check_private_ip (some host) ≡ allowed ip
    → IsPrivateAddress ip × (ip ≡ trim host)
unfolding check_private_ip
check_private_ip-IsPrivateAddress [] ip h = cc
check_private_ip-IsPrivateAddress (x ∷ xs) ip h = check_matched_allowed (trim (x ∷ xs)) _ ip refl h

-- ── completeness ──

abbrev Plain : Text → Type 0
Plain s = All (λ c. (nat_beq c b'.' ≡ false) × (nat_beq c b':' ≡ false) × (is_space c ≡ false)) s

all-Plain :
    (s : Text)
    → all (λ c. not (nat_beq c b'.') && not (nat_beq c b':') && not (is_space c)) s ≡ true
    → Plain s
all-Plain [] h = tt
all-Plain (c ∷ s) h =
    ((ground (arith, h), ground (arith, h), ground (arith, h)), all-Plain s (ground (arith, h)))

Plain-Lacks : (s : Text) → Plain s → Lacks b'.' s
Plain-Lacks [] h = tt
Plain-Lacks (c ∷ s) h = (h.0.0, Plain-Lacks s h.1)

Plain-Lacks_colon : (s : Text) → Plain s → Lacks b':' s
Plain-Lacks_colon [] h = tt
Plain-Lacks_colon (c ∷ s) h = (h.0.1, Plain-Lacks_colon s h.1)

Plain-NoSpace : (s : Text) → Plain s → NoSpace s
Plain-NoSpace [] h = tt
Plain-NoSpace (c ∷ s) h = (h.0.2, Plain-NoSpace s h.1)

decimal-Plain : (n : ℕ) → n ≤ 255 → Plain (decimal n)
decimal-Plain n h = all-Plain (decimal n) (decimal-IsOctetText n h).plain

dot_cons-NoSpace : (s : Text) → NoSpace s → NoSpace (b'.' ∷ s)
unfolding is_space
dot_cons-NoSpace s h = (refl, h)

check_trimmed :
    (s : Text)
    → s ≢ []
    → NoSpace s
    → check_private_ip (some s) ≡ check_matched s (quad_of (split b'.' s))
unfolding check_private_ip
check_trimmed [] h n = absurd (h refl)
check_trimmed (x ∷ xs) h n = rw (trim-eq_self (x ∷ xs) n)

module _ (a b c d : ℕ) (ra : a ≤ 255) (rb : b ≤ 255) (rc : c ≤ 255) (rd : d ≤ 255) where
  pub dotted-NoSpace : NoSpace (dotted a b c d)
  unfolding dotted join
  dotted-NoSpace =
      let P = λ (x : ℕ). is_space x ≡ false in
      let dn = λ (n : ℕ) (h : n ≤ 255). Plain-NoSpace (decimal n) (decimal-Plain n h) in
      All-append P (decimal a) _ (dn a ra) (
        dot_cons-NoSpace _ (
          All-append P (decimal b) _ (dn b rb) (
            dot_cons-NoSpace _
              (All-append P (decimal c) _ (dn c rc) (dot_cons-NoSpace _ (dn d rd))))))

  pub dotted-Lacks_colon : Lacks b':' (dotted a b c d)
  unfolding dotted join
  dotted-Lacks_colon =
      let P = λ (x : ℕ). nat_beq x b':' ≡ false in
      let dn = λ (n : ℕ) (h : n ≤ 255). Plain-Lacks_colon (decimal n) (decimal-Plain n h) in
      All-append P (decimal a) _ (dn a ra) (
        refl,
        All-append P (decimal b) _ (dn b rb)
            (refl, All-append P (decimal c) _ (dn c rc) (refl, dn d rd)),
      )

  split-dotted : split b'.' (dotted a b c d) ≡ decimal a ∷ decimal b ∷ decimal c ∷ decimal d ∷ []
  unfolding dotted
  split-dotted =
      let l = λ (n : ℕ) (h : n ≤ 255). Plain-Lacks (decimal n) (decimal-Plain n h) in
      split-join b'.' (decimal a) (decimal b ∷ decimal c ∷ decimal d ∷ [])
        (l a ra, (l b rb, (l c rc, (l d rd, tt))))

  pub dotted-ne_nil : dotted a b c d ≢ []
  unfolding split
  dotted-ne_nil e = cc (split-dotted, ap (split b'.') e)

  pub quad_of-dotted :
      quad_of (split b'.' (dotted a b c d))
      ≡ some
          (record { first = decimal a; second = decimal b; third = decimal c; fourth = decimal d })
  unfolding quad_of
  quad_of-dotted = rw split-dotted (
      ground (
        arith,
        (decimal-IsOctetText a ra).text,
        (decimal-IsOctetText b rb).text,
        (decimal-IsOctetText c rc).text,
        (decimal-IsOctetText d rd).text,
      ))

  verdict : check_private_ip (some (dotted a b c d)) ≡ (
      if nat_beq a 169 && nat_beq b 254
      then refused (link_local (dotted a b c d))
      else if is_private a b
      then allowed (dotted a b c d)
      else refused (not_private (dotted a b c d)))
  unfolding check_matched check_octets
  verdict =
      let oa = decimal-IsOctetText a ra in
      let ob = decimal-IsOctetText b rb in
      let oc = decimal-IsOctetText c rc in
      let od = decimal-IsOctetText d rd in
      rw (check_trimmed (dotted a b c d) dotted-ne_nil dotted-NoSpace, quad_of-dotted)
        (ground (
          arith, oa.canonical, ob.canonical, oc.canonical, od.canonical, oa.number, ob.number,
          oc.number, od.number,
        ))

-- Every private address in canonical form is accepted as it stands, and no other IPv4 address in
-- canonical form is.
pub check_private_ip-dotted :
    (a b c d : ℕ)
    → a ≤ 255
    → b ≤ 255
    → c ≤ 255
    → d ≤ 255
    → (check_private_ip (some (dotted a b c d)) ≡ allowed (dotted a b c d)) ↔ Private a b
check_private_ip-dotted a b c d ra rb rc rd =
    let v = verdict a b c d ra rb rc rd in
    (
      (λ h. ground (arith, v, h, is_private_iff a b)),
      (λ h. ground (arith, v, h, is_private_iff a b)),
    )
