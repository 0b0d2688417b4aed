-- ===== src/NetGuard.antt =====
-- server/net_guard.js: which hosts the hub may contact, and which clients count as local.
-- A host is a `typeof host === 'string'` text, or `none`. Matching
-- `^(\d{1,3})\.(\d{1,3})\.(\d{1,3})\.(\d{1,3})$` is splitting at the dots into four parts of one to
-- three digits. A reason is its kind with the text that the message shows.
pub mod Canonical
pub mod Clients
mod Examples
use home_net_hub.Prelude.{
  ℕ, zero, suc, ◌+◌, ◌-◌, ◌*◌, ◌/◌, ◌%◌, ◌^◌, ◌≤◌, ◌<◌, min, max, String, ◌≡◌, refl, sym, ap, ◌∙◌,
  subst, ◌≢◌, ◌↔◌, ◌⊎◌, inl, inr, Bool, true, false, not, ◌&&◌, ◌||◌, Option, none, some, List, [],
  ◌∷◌, ◌++◌, map, arith, ltb, leb, nat_beq, if◌then◌else◌, ltb→lt, lt→ltb, leb→le, le→leb,
  not_leb→lt, not_ltb→le, nat_beq_iff, tests, and_true, or_false, Bool-cases, Option-cases, length,
  take, drop, any, all, select, get_or, is_some, All, length-append, length-take, length-drop,
  length-select, All-append, Eq, ◌==◌, beq_refl, beq_ne, nat_eq, string_eq, list_eq, list_beq_iff,
}
use home_net_hub.Text.{Text, codes, trim, includes, lower}
use home_net_hub.Text.Split.{split, join}
use home_net_hub.Text.Decimal.{value, decimal, octet_text, leading_zero}

pub data Refusal : Type 0 where
  host_required : Refusal
  not_ipv4 : Text → Refusal
  ambiguous_octet : Text → Refusal
  octet_out_of_range : Text → Refusal
  link_local : Text → Refusal
  not_private : Text → Refusal
  no_client_address : Refusal
  ipv6_client : Text → Refusal

pub data Checked : Type 0 where
  allowed : Text → Checked
  refused : Refusal → Checked

-- The first 64 characters.
unfoldable pub clip : Text → Text
clip s = take 64 s

pub record Quad : Type 0 where
  pub first : Text
  pub second : Text
  pub third : Text
  pub fourth : Text

unfoldable pub quad_of : List Text → Option Quad
quad_of (a ∷ b ∷ c ∷ d ∷ []) =
    if octet_text a && octet_text b && octet_text c && octet_text d
    then some (record { first = a; second = b; third = c; fourth = d })
    else none
quad_of _ = none

unfoldable pub is_private : ℕ → ℕ → Bool
is_private a b =
    nat_beq a 10
    || nat_beq a 192 && nat_beq b 168
    || nat_beq a 172 && leb 16 b && leb b 31
    || nat_beq a 127

unfoldable pub dotted : ℕ → ℕ → ℕ → ℕ → Text
dotted a b c d = join b'.' (decimal a ∷ decimal b ∷ decimal c ∷ decimal d ∷ [])

-- The rules on the four octets, after the regular expression has matched `s`.
unfoldable pub check_octets : Text → Quad → Checked
check_octets s q =
    if leading_zero q.first
      || leading_zero q.second
      || leading_zero q.third
      || leading_zero q.fourth
    then refused (ambiguous_octet (clip s))
    else let a = value q.first in
      let b = value q.second in
      let c = value q.third in
      let d = value q.fourth in
      let ip = dotted a b c d in
      if ltb 255 a || ltb 255 b || ltb 255 c || ltb 255 d
      then refused (octet_out_of_range (clip s))
      else if nat_beq a 169 && nat_beq b 254
      then refused (link_local ip)
      else if is_private a b
      then allowed ip
      else refused (not_private ip)

unfoldable pub check_matched : Text → Option Quad → Checked
check_matched s none = refused (not_ipv4 (clip s))
check_matched s (some q) = check_octets s q

unfoldable pub check_private_ip : Option Text → Checked
check_private_ip none = refused host_required
check_private_ip (some []) = refused host_required
check_private_ip (some (x ∷ xs)) = let s = trim (x ∷ xs) in check_matched s (quad_of (split b'.' s))

-- /^::ffff:(\d{1,3}\.\d{1,3}\.\d{1,3}\.\d{1,3})$/i
unfoldable pub strip_prefix : Text → Text → Option Text
strip_prefix [] s = some s
strip_prefix (p ∷ ps) [] = none
strip_prefix (p ∷ ps) (c ∷ s) = if nat_beq p (lower c) then strip_prefix ps s else none

abbrev pub mapped_prefix : Text
mapped_prefix = codes "::ffff:"

unfoldable pub mapped_ipv4 : Text → Option Text
mapped_ipv4 s = elim (strip_prefix mapped_prefix s) [
  | none ↦ none
  | some rest ↦ if is_some (quad_of (split b'.' rest)) then some rest else none
]

unfoldable pub unmap : Text → Text
unmap s = get_or (mapped_ipv4 s) s

-- An address whose white space is off.
unfoldable pub check_trimmed_client : Text → Checked
check_trimmed_client [] = refused no_client_address
check_trimmed_client (x ∷ xs) =
    let v = unmap (x ∷ xs) in
    if (x ∷ xs) == codes "::1"
    then allowed (codes "::1")
    else if includes b':' v
    then refused (ipv6_client (clip v))
    else check_private_ip (some v)

unfoldable pub check_private_client : Option Text → Checked
check_private_client none = refused no_client_address
check_private_client (some addr) = check_trimmed_client (trim addr)
