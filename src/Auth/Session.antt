-- ===== src/Auth/Session.antt =====
-- Session tokens of server/auth.js: `v1.<expiry>.<id>.<signature>`.
use home_net_hub.Prelude.{
  ℕ, ◌+◌, ◌/◌, Bool, true, false, ◌&&◌, Option, none, some, List, [], ◌∷◌, ◌++◌, ltb, leb, nat_beq,
  if◌then◌else◌, select, ◌==◌, nat_eq, string_eq, list_eq, option_eq,
}
use home_net_hub.Text.{Text, codes}
use home_net_hub.Text.Split.{split}
use home_net_hub.Text.Decimal.{decimal}
use home_net_hub.JsMap.{JsMap, has, set}
use home_net_hub.Auth.{Platform, Gate, session_ttl_ms}

pub record Issued : Type 0 where
  pub value : Text
  pub id : Text
  pub expires_at : ℕ
  pub max_age_s : ℕ

unfoldable pub session_body : ℕ → Text → Text
session_body exp id = codes "v1." ++ (decimal exp ++ (b'.' ∷ id))

-- `id` is b64u(randomBytes(9)).
unfoldable pub issue : Platform → Gate → Text → ℕ → Issued
issue pf g id now =
    let exp = now + session_ttl_ms in
    let body = session_body exp id in
    record {
      value = body ++ (b'.' ∷ pf.sign g.signing_secret body);
      id = id;
      expires_at = exp;
      max_age_s = session_ttl_ms / 1000;
    }

pub data Denied : Type 0 where
  no_session malformed unrecognised bad_signature session_expired session_revoked : Denied

pub data Verdict : Type 0 where
  valid : ℕ → Option Text → Verdict
  denied : Denied → Verdict

-- The text before and after the last dot.
unfoldable pub split_last : Text → Option (Text × Text)
split_last [] = none
split_last (c ∷ s) = elim (split_last s) [
  | some (a, b) ↦ some (c ∷ a, b)
  | none ↦ if nat_beq c b'.' then some ([], s) else none
]

unfoldable pub has_v1 : Text → Bool
has_v1 (a ∷ b ∷ c ∷ s) = nat_beq a b'v' && nat_beq b b'1' && nat_beq c b'.'
has_v1 _ = false

-- const [, expStr, id] = body.split('.')
unfoldable pub second_part : List Text → Option Text
second_part (a ∷ b ∷ s) = some b
second_part _ = none

unfoldable pub third_part : List Text → Option Text
third_part (a ∷ b ∷ c ∷ s) = some c
third_part _ = none

-- Number(expStr), where there is such a part.
unfoldable pub expiry_of : Platform → List Text → Option ℕ
expiry_of pf parts = elim (second_part parts) [ none ↦ none | some s ↦ pf.to_number s ]

-- After the signature has been checked.
unfoldable pub verify_body : Platform → Gate → List Text → ℕ → Verdict
verify_body pf g parts now = elim (expiry_of pf parts) [
  | none ↦ denied session_expired
  | some exp ↦
      if leb exp now
      then denied session_expired
      else if has g.revoked (third_part parts)
      then denied session_revoked
      else valid exp (third_part parts)
]

unfoldable pub verify_parts : Platform → Gate → Option (Text × Text) → ℕ → Verdict
verify_parts pf g none now = denied malformed
verify_parts pf g (some ([], sig)) now = denied malformed
verify_parts pf g (some (c ∷ s, sig)) now =
    if has_v1 (c ∷ s)
    then if sig == pf.sign g.signing_secret (c ∷ s)
      then verify_body pf g (split b'.' (c ∷ s)) now
      else denied bad_signature
    else denied unrecognised

unfoldable pub verify : Platform → Gate → Option Text → ℕ → Verdict
verify pf g none now = denied no_session
verify pf g (some []) now = denied no_session
verify pf g (some (c ∷ s)) now = verify_parts pf g (split_last (c ∷ s)) now

unfoldable pub forget_expired : ℕ → JsMap (Option Text) ℕ → JsMap (Option Text) ℕ
forget_expired now m = select (λ e. ltb now e.1) m

-- Whether there was a session to revoke.
unfoldable pub revoke : Platform → Gate → Option Text → ℕ → Gate × Bool
revoke pf g token now = elim (verify pf g token now) [
  | denied r ↦ (g, false)
  | valid exp id ↦ (record g { revoked = forget_expired now (set g.revoked id exp) }, true)
]
