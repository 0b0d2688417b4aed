-- ===== src/Auth/Cookies.antt =====
-- Cookies and the Origin header of server/auth.js. decodeURIComponent and the host of a URL are
-- parameters, none where they throw; a result none of parse_cookies is such a throw.
use home_net_hub.Prelude.{
  ℕ, ◌≡◌, refl, sym, ap, ◌∙◌, inl, inr, Bool, false, ◌||◌, Option, none, some, List, [], ◌∷◌, ◌++◌,
  nat_beq, if◌then◌else◌, Option-cases, ◌==◌, nat_eq, string_eq, list_eq, option_eq, pair_eq,
}
use home_net_hub.Text.{Text, codes, trim, trim-eq_self, NoSpace, trim_start, is_space}
use home_net_hub.Text.Split.{split, Lacks, split-append_sep, split_single}
use home_net_hub.Text.Decimal.{decimal}
use home_net_hub.JsMap.{JsMap, get, set, get-set_self}

abbrev pub cookie_name : Text
cookie_name = codes "hnh_admin"

-- indexOf('=') and the two slices around it
unfoldable pub cut_first : ℕ → Text → Option (Text × Text)
cut_first c [] = none
cut_first c (x ∷ s) =
    let rest = cut_first c s in
    if nat_beq x c then some ([], s) else elim rest [ none ↦ none | some p ↦ some (x ∷ p.0, p.1) ]

-- out[k] = v; an assignment of a text to `__proto__` does nothing.
unfoldable pub assign : JsMap Text Text → Text → Text → JsMap Text Text
assign out k v = if k == codes "__proto__" then out else set out k v

abbrev pub session_pair : Text → Text
session_pair token = cookie_name ++ (b'=' ∷ token)

module _ (decode : Text → Option Text) where
  unfoldable pub assign_decoded : JsMap Text Text → Text → Option Text → Option (JsMap Text Text)
  assign_decoded out k none = none
  assign_decoded out k (some v) = some (assign out k v)

  unfoldable pub parse_pair : JsMap Text Text → Text → Text → Option (JsMap Text Text)
  parse_pair out [] v = some out
  parse_pair out (c ∷ k) v = assign_decoded out (c ∷ k) (decode v)

  unfoldable pub parse_cut : JsMap Text Text → Option (Text × Text) → Option (JsMap Text Text)
  parse_cut out none = some out
  parse_cut out (some ([], v)) = some out
  parse_cut out (some (c ∷ k, v)) = parse_pair out (trim (c ∷ k)) (trim v)

  unfoldable pub parse_parts : JsMap Text Text → List Text → Option (JsMap Text Text)
  parse_parts out [] = some out
  parse_parts out (part ∷ parts) = elim (parse_cut out (cut_first b'=' part)) [
    | none ↦ none
    | some out' ↦ parse_parts out' parts
  ]

  unfoldable pub parse_cookies : Option Text → Option (JsMap Text Text)
  parse_cookies none = some []
  parse_cookies (some header) = parse_parts [] (split b';' header)

  parse_parts-some :
      (out out' : JsMap Text Text) (p : Text) (parts : List Text)
      → parse_cut out (cut_first b'=' p) ≡ some out'
      → parse_parts out (p ∷ parts) ≡ parse_parts out' parts
  unfolding parse_parts
  parse_parts-some out out' p parts e = rw (e, parse_parts)

  parse_parts-none :
      (out : JsMap Text Text) (p : Text) (parts : List Text)
      → parse_cut out (cut_first b'=' p) ≡ none
      → parse_parts out (p ∷ parts) ≡ none
  unfolding parse_parts
  parse_parts-none out p parts e = rw (e, parse_parts)

  parse_parts_nil : (out : JsMap Text Text) → parse_parts out [] ≡ some out
  unfolding parse_parts
  parse_parts_nil out = refl

  parse_parts-last :
      (out m : JsMap Text Text) (parts : List Text) (part k v : Text)
      → ((o : JsMap Text Text) → parse_cut o (cut_first b'=' part) ≡ some (set o k v))
      → parse_parts out (parts ++ (part ∷ [])) ≡ some m
      → get m k ≡ some v
  parse_parts-last out m [] part k v last h =
      let all =
        sym (parse_parts_nil (set out k v))
        ∙ sym (parse_parts-some out (set out k v) part [] (last out))
        ∙ h in
      ap (λ (x : JsMap Text Text). get x k) (sym (cc all)) ∙ get-set_self out k v
  parse_parts-last out m (p ∷ parts) part k v last h =
      elim (Option-cases (parse_cut out (cut_first b'=' p))) [
        | inl e ↦ absurd (cc (sym (parse_parts-none out p (parts ++ (part ∷ [])) e) ∙ h))
        | inr (out', e) ↦
            parse_parts-last out' m parts part k v last
              (sym (parse_parts-some out out' p (parts ++ (part ∷ [])) e) ∙ h)
      ]

  session_part :
      (o : JsMap Text Text) (token : Text)
      → decode token ≡ some token
      → NoSpace token
      → parse_cut o (cut_first b'=' (b' ' ∷ (cookie_name ++ (b'=' ∷ token))))
        ≡ some (set o cookie_name token)
  unfolding parse_cut cut_first parse_pair assign_decoded assign trim trim_start is_space
  session_part o token plain tight =
      ap (λ v. assign_decoded o cookie_name (decode v)) (trim-eq_self token tight)
      ∙ ap (assign_decoded o cookie_name) plain

  alone_part :
      (o : JsMap Text Text) (token : Text)
      → decode token ≡ some token
      → NoSpace token
      → parse_cut o (cut_first b'=' (cookie_name ++ (b'=' ∷ token)))
        ≡ some (set o cookie_name token)
  unfolding parse_cut cut_first parse_pair assign_decoded assign trim trim_start is_space
  alone_part o token plain tight =
      ap (λ v. assign_decoded o cookie_name (decode v)) (trim-eq_self token tight)
      ∙ ap (assign_decoded o cookie_name) plain

  session_pair-Lacks : (token : Text) → Lacks b';' token → Lacks b';' (session_pair token)
  session_pair-Lacks token lacks =
      (refl, (refl, (refl, (refl, (refl, (refl, (refl, (refl, (refl, (refl, lacks))))))))))

  -- The session cookie is found where a Cookie header is nothing but it, and where a header ends with
  -- it after `; `, whatever stands before that: the parsed cookies have its token under its name, if
  -- the header parses at all (a header that is nothing but it does). The token is as the server issues
  -- it, with nothing to decode, no white space and no semicolon.
  pub parse_cookies-session :
      (before token : Text) (m : JsMap Text Text)
      → decode token ≡ some token
      → Lacks b';' token
      → NoSpace token
      → parse_cookies (some (before ++ (b';' ∷ (b' ' ∷ session_pair token)))) ≡ some m
      → (parse_cookies (some (session_pair token)) ≡ some ((cookie_name, token) ∷ []))
        × (get m cookie_name ≡ some token)
  unfolding parse_cookies set
  parse_cookies-session before token m plain lacks tight h =
      let part : Text = b' ' ∷ session_pair token in
      let parts =
        split-append_sep b';' before part
        ∙ ap (λ r. split b';' before ++ r)
            (split_single b';' part (refl, session_pair-Lacks token lacks)) in
      (
        ap (parse_parts [])
              (split_single b';' (session_pair token) (session_pair-Lacks token lacks))
            ∙ parse_parts-some [] (set [] cookie_name token) (session_pair token) []
                (alone_part [] token plain tight)
            ∙ parse_parts_nil (set [] cookie_name token),
        parse_parts-last [] m (split b';' before) part cookie_name token
            (λ o. session_part o token plain tight) (sym (ap (parse_parts []) parts) ∙ h),
      )

unfoldable pub cookie_bits : Text → Bool → ℕ → List Text
cookie_bits value secure max_age =
    let bits =
      (cookie_name ++ (b'=' ∷ value))
      ∷ codes "Path=/"
      ∷ codes "HttpOnly"
      ∷ codes "SameSite=Strict"
      ∷ (codes "Max-Age=" ++ decimal max_age)
      ∷ [] in
    if secure then bits ++ (codes "Secure" ∷ []) else bits

-- bits.join('; ')
unfoldable pub join_bits : List Text → Text
join_bits [] = []
join_bits (w ∷ []) = w
join_bits (w ∷ v ∷ ws) = w ++ (b';' ∷ b' ' ∷ join_bits (v ∷ ws))

unfoldable pub serialize_cookie : Text → Bool → ℕ → Text
serialize_cookie value secure max_age = join_bits (cookie_bits value secure max_age)

unfoldable pub clear_cookie : Bool → Text
clear_cookie secure = serialize_cookie [] secure 0

pub data Origin : Type 0 where
  same_origin malformed_origin cross_origin : Origin

-- Whether a value is there, not empty, and this host.
unfoldable pub is_host : Option Text → Text → Bool
is_host none host = false
is_host (some []) host = false
is_host (some (c ∷ s)) host = (c ∷ s) == host

unfoldable pub check_host : Option Text → Option Text → Option Text → Origin
check_host none hostname raw_host = malformed_origin
check_host (some host) hostname raw_host =
    if is_host hostname host || is_host raw_host host then same_origin else cross_origin

-- req.headers.origin, req.hostname and req.headers.host
unfoldable pub check_origin :
    (Text → Option Text) → Option Text → Option Text → Option Text → Origin
check_origin url_host none hostname raw_host = same_origin
check_origin url_host (some []) hostname raw_host = same_origin
check_origin url_host (some (c ∷ s)) hostname raw_host =
    check_host (url_host (c ∷ s)) hostname raw_host
