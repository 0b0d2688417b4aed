-- ===== src/Auth/Lifecycle.antt =====
-- Sessions and password changes of server/auth.js over time: what a session is good for, what a
-- change of the password ends, and how the one row comes about.
use home_net_hub.Prelude.{
  ℕ, ◌+◌, ◌<◌, ◌≡◌, refl, sym, ap, ◌∙◌, inl, inr, Option, none, some, List, [], ◌∷◌, ◌++◌, arith,
  leb, if◌then◌else◌, nat_beq_iff, Option-cases, beq_refl, nat_eq, string_eq, list_eq, option_eq,
  pair_eq, list_beq_iff,
}
use home_net_hub.Text.{Text, codes}
use home_net_hub.Text.Split.{split, split-append, split_single, Lacks}
use home_net_hub.Text.Decimal.{decimal, decimal-Lacks_dot}
use home_net_hub.JsMap.{has, get}
use home_net_hub.Auth.{Platform, Gate, session_ttl_ms}
use home_net_hub.Auth.Session.{
  issue, session_body, split_last, has_v1, valid, denied, session_expired, session_revoked, verify,
  verify_parts, verify_body, expiry_of, second_part, third_part,
}

split_last-none : (s : Text) → Lacks b'.' s → split_last s ≡ none
unfolding split_last
split_last-none [] h = refl
split_last-none (c ∷ s) h = ground (arith, split_last-none s h.1, h.0)

split_last-append : (a b : Text) → Lacks b'.' b → split_last (a ++ (b'.' ∷ b)) ≡ some (a, b)
unfolding split_last
split_last-append [] b h = ground (arith, split_last-none b h)
split_last-append (c ∷ a) b h = ground (arith, split_last-append a b h)

split_last-some : (s a b : Text) → split_last s ≡ some (a, b) → s ≡ a ++ (b'.' ∷ b)
unfolding split_last
split_last-some [] a b h = cc
split_last-some (c ∷ s) a b h = elim (Option-cases (split_last s)) [
  | inl e ↦ ground (arith, h, e, nat_beq_iff c b'.')
  | inr (p, e) ↦ ground (arith, h, e, split_last-some s p.0 p.1)
]

split-session_body :
    (exp : ℕ) (id : Text)
    → Lacks b'.' id
    → split b'.' (session_body exp id) ≡ codes "v1" ∷ decimal exp ∷ id ∷ []
unfolding session_body
split-session_body exp id h =
    split-append b'.' (codes "v1") (decimal exp ++ (b'.' ∷ id)) (refl, (refl, tt))
    ∙ ap (λ r. codes "v1" ∷ r)
        (split-append b'.' (decimal exp) id (decimal-Lacks_dot exp)
          ∙ ap (λ r. decimal exp ∷ r) (split_single b'.' id h))

verify_split :
    (pf : Platform) (g : Gate) (exp : ℕ) (id sig : Text) (now : ℕ)
    → Lacks b'.' sig
    → verify pf g (some (session_body exp id ++ (b'.' ∷ sig))) now
      ≡ verify_parts pf g (some (session_body exp id, sig)) now
unfolding verify session_body
verify_split pf g exp id sig now h =
    ap (λ o. verify_parts pf g o now) (split_last-append (session_body exp id) sig h)

verify_signed :
    (pf : Platform) (g : Gate) (exp : ℕ) (id : Text) (now : ℕ)
    → verify_parts pf g
        (some (session_body exp id, pf.sign g.signing_secret (session_body exp id)))
        now
      ≡ verify_body pf g (split b'.' (session_body exp id)) now
unfolding verify_parts session_body has_v1
verify_signed pf g exp id now = rw (beq_refl (pf.sign g.signing_secret (session_body exp id)))

-- An issued session, offered back under the secret it was signed with, is accepted with its expiry
-- and its id until twelve hours after it was issued, unless its id was revoked; from then on it is
-- expired. Number reads back what String prints, and neither the id nor the signature has a dot
-- (both are base64url).
pub verify-issue :
    (pf : Platform) (g : Gate) (id : Text) (now t : ℕ)
    → ((n : ℕ) → pf.to_number (decimal n) ≡ some n)
    → Lacks b'.' id
    → Lacks b'.' (pf.sign g.signing_secret (session_body (now + session_ttl_ms) id))
    → verify pf g (some (issue pf g id now).value) t ≡ (
        if leb (now + session_ttl_ms) t
        then denied session_expired
        else if has g.revoked (some id)
        then denied session_revoked
        else valid (now + session_ttl_ms) (some id))
unfolding issue verify_body expiry_of second_part third_part
verify-issue pf g id now t number plain sig =
    let exp = now + session_ttl_ms in
    verify_split pf g exp id _ t sig
    ∙ verify_signed pf g exp id t
    ∙ ap (λ ps. verify_body pf g ps t) (split-session_body exp id plain)
    ∙ rw (number exp)

verify_body-valid :
    (pf : Platform) (g : Gate) (parts : List Text) (now exp : ℕ) (id : Option Text)
    → verify_body pf g parts now ≡ valid exp id
    → (now < exp) × (get g.revoked id ≡ none)
unfolding verify_body
verify_body-valid pf g parts now exp id h = (ground (arith, h), ground (arith, h))

verify_parts-valid :
    (pf : Platform) (g : Gate) (body sig : Text) (now exp : ℕ) (id : Option Text)
    → verify_parts pf g (some (body, sig)) now ≡ valid exp id
    → (sig ≡ pf.sign g.signing_secret body)
      × (verify_body pf g (split b'.' body) now ≡ valid exp id)
unfolding verify_parts
verify_parts-valid pf g [] sig now exp id h = cc
verify_parts-valid pf g (c ∷ s) sig now exp id h =
    let eq = list_beq_iff sig (pf.sign g.signing_secret (c ∷ s)) in
    (ground (arith, h, eq), ground (arith, h, eq))

verify_body-claims :
    (pf : Platform) (g : Gate) (parts : List Text) (now exp : ℕ) (id : Option Text)
    → verify_body pf g parts now ≡ valid exp id
    → (expiry_of pf parts ≡ some exp) × (third_part parts ≡ id)
unfolding verify_body
verify_body-claims pf g parts now exp id h = (ground (arith, h), ground (arith, h))

-- What an accepted token shows: `exp` and `id` are those in its signed body.
pub record IsGenuine (pf : Platform) (g : Gate) (token : Text) (now exp : ℕ) (id : Option Text)
    : Type 0 where
  pub body : Text
  pub signed : token ≡ body ++ (b'.' ∷ pf.sign g.signing_secret body)
  pub expires : expiry_of pf (split b'.' body) ≡ some exp
  pub named : third_part (split b'.' body) ≡ id
  pub alive : now < exp
  pub kept : get g.revoked id ≡ none

split-IsGenuine :
    (pf : Platform) (g : Gate) (token : Text) (o : Option (Text × Text)) (now exp : ℕ)
    (id : Option Text)
    → split_last token ≡ o
    → verify_parts pf g o now ≡ valid exp id
    → IsGenuine pf g token now exp id
unfolding verify_parts
split-IsGenuine pf g token none now exp id e h = cc
split-IsGenuine pf g token (some (body, sig)) now exp id e h =
    let (s, b) = verify_parts-valid pf g body sig now exp id h in
    let (alive, kept) = verify_body-valid pf g (split b'.' body) now exp id b in
    let (expires, named) = verify_body-claims pf g (split b'.' body) now exp id b in
    record {
      body = body;
      signed = split_last-some token body sig e ∙ ap (λ r. body ++ (b'.' ∷ r)) s;
      expires = expires;
      named = named;
      alive = alive;
      kept = kept;
    }

-- Only a genuine session is accepted: its text is a body followed by that body's signature under
-- the present secret, the expiry and the id that verify reports are the second and the third part of
-- that body, this expiry is later than now and this id is not revoked.
pub verify-IsGenuine :
    (pf : Platform) (g : Gate) (token : Text) (now exp : ℕ) (id : Option Text)
    → verify pf g (some token) now ≡ valid exp id
    → IsGenuine pf g token now exp id
unfolding verify
verify-IsGenuine pf g [] now exp id h = cc
verify-IsGenuine pf g (c ∷ s) now exp id h =
    split-IsGenuine pf g (c ∷ s) (split_last (c ∷ s)) now exp id refl h

-- The expiry and the id that a token claims, which depend on nothing but its text.
claims : Platform → Option (Text × Text) → Option ℕ × Option Text
claims pf none = (none, none)
claims pf (some (body, sig)) = (expiry_of pf (split b'.' body), third_part (split b'.' body))

pub token_claims : Platform → Text → Option ℕ × Option Text
token_claims pf token = claims pf (split_last token)

claims_of_split :
    (pf : Platform) (g : Gate) (o : Option (Text × Text)) (now exp : ℕ) (id : Option Text)
    → verify_parts pf g o now ≡ valid exp id
    → claims pf o ≡ (some exp, id)
unfolding claims
claims_of_split pf g none now exp id h = absurd (unfold verify_parts in cc h)
claims_of_split pf g (some (body, sig)) now exp id h =
    let (s, b) = verify_parts-valid pf g body sig now exp id h in
    let (e, i) = verify_body-claims pf g (split b'.' body) now exp id b in cc (e, i)

pub token_claims_lem :
    (pf : Platform) (g : Gate) (token : Text) (now exp : ℕ) (id : Option Text)
    → verify pf g (some token) now ≡ valid exp id
    → token_claims pf token ≡ (some exp, id)
unfolding token_claims verify
token_claims_lem pf g [] now exp id h = cc
token_claims_lem pf g (c ∷ s) now exp id h = claims_of_split pf g (split_last (c ∷ s)) now exp id h

-- The last dot of an accepted token stands before the signature of what precedes it.
pub verify-signed :
    (pf : Platform) (g : Gate) (token : Text) (now exp : ℕ) (id : Option Text)
    → verify pf g (some token) now ≡ valid exp id
    → (body : Text) × (split_last token ≡ some (body, pf.sign g.signing_secret body))
unfolding verify
verify-signed pf g [] now exp id h = cc
verify-signed pf g (c ∷ s) now exp id h = elim (Option-cases (split_last (c ∷ s))) [
  | inl e ↦ absurd (unfold verify_parts in cc (ap (λ o. verify_parts pf g o now) (sym e) ∙ h))
  | inr (p, e) ↦
      let (sig, b) =
        verify_parts-valid pf g p.0 p.1 now exp id
          (ap (λ o. verify_parts pf g o now) (sym e) ∙ h) in
      (p.0, e ∙ ap (λ t. some (p.0, t)) sig)
]
