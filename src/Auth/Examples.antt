-- ===== src/Auth/Examples.antt =====
-- The gate of server/auth.js with a platform of its own, and its theorems there.
use home_net_hub.Prelude.{
  ℕ, ◌+◌, ◌≡◌, refl, ap, ◌≢◌, true, false, Option, none, some, [], ◌∷◌, ◌++◌, arith, leb,
  if◌then◌else◌, nat_eq, string_eq, list_eq, option_eq, pair_eq, list_beq_iff,
}
use home_net_hub.Text.{Text, codes, trim, trim_start, is_space}
use home_net_hub.Text.Decimal.{decimal, value, value-decimal}
use home_net_hub.Text.Split.{split}
use home_net_hub.JsMap.{set, get}
use home_net_hub.Auth.{
  Platform, Gate, Row, set_password, validate_password, bootstrap, enabled, from_db, session_ttl_ms,
}
use home_net_hub.Auth.Session.{
  issue, verify, valid, denied, session_expired, revoke, verify_parts, verify_body, expiry_of,
  second_part, third_part, split_last, has_v1,
}
use home_net_hub.Auth.Password.{
  World, Fresh, changed, matches, create_auth, setup_admin_password, set_up, change_password,
  begin_change, end_change, change_inner, change_checked, change_to, rotate, setup_with,
}
use home_net_hub.Auth.Lifecycle.{verify-IsGenuine, IsGenuine}
use home_net_hub.Auth.Cookies.{
  session_pair, parse_cookies, parse_parts, parse_cut, cut_first, parse_pair, assign_decoded,
  assign, cookie_name, parse_cookies-session, serialize_cookie, cookie_bits, join_bits,
}
use home_net_hub.Auth.Revoked.{revoke_lasts, revoke_all}
use home_net_hub.Auth.Ended.{change_password-ends, change_password-admits}
use home_net_hub.Auth.Kept.{change_password-IsConsistent, IsConsistent}
use home_net_hub.Auth.SetUp.{setup_admin_password-set_up, create_auth-IsFounded, IsFounded}

-- A hash that shows its input, a signature that shows its secret, digits read as a number.
abbrev plain_platform : Platform
plain_platform = record {
  hash = λ pw salt. some (salt ++ pw);
  sign = λ k b. k;
  to_number = λ s. some (value s);
}

number_of : (n : ℕ) → plain_platform.to_number (decimal n) ≡ some n
number_of n = ap some (value-decimal n)

abbrev old_gate : Gate
old_gate = record {
  password_hash = codes "saltold password";
  salt = codes "salt";
  signing_secret = codes "k1";
  revoked = [];
  changing = false;
}

abbrev old_world : World
old_world = record {
  row = some (record {
    password_hash = codes "saltold password";
    salt = codes "salt";
    signing_secret = codes "k1";
  });
  gate = old_gate;
}

abbrev fresh : Fresh
fresh = record { salt = codes "pepper"; secret = codes "k2"; id = codes "id2" }

abbrev new_world : World
new_world = record {
  row = some (record {
    password_hash = codes "peppernew password";
    salt = codes "pepper";
    signing_secret = codes "k2";
  });
  gate = record {
    password_hash = codes "peppernew password";
    salt = codes "pepper";
    signing_secret = codes "k2";
    revoked = [];
    changing = false;
  };
}

abbrev first_token : Text
first_token = codes "v1.43201000.id1.k1"

verify_first :
    verify plain_platform old_gate (some first_token) 5000 ≡ valid 43201000 (some (codes "id1"))
unfolding verify verify_parts verify_body expiry_of second_part third_part split_last has_v1 value
    get split
verify_first = refl

verify-IsGenuine_example :
    IsGenuine plain_platform old_gate first_token 5000 43201000 (some (codes "id1"))
verify-IsGenuine_example =
    verify-IsGenuine plain_platform old_gate first_token 5000 43201000 (some (codes "id1"))
      verify_first

revoke_lasts_example :
    verify plain_platform
      (revoke_all plain_platform
        (revoke plain_platform old_gate (some first_token) 5000).0
        ((none, 6000) ∷ []))
      (some first_token)
      7000
    ≢ valid 43201000 (some (codes "id1"))
unfolding verify
revoke_lasts_example =
    revoke_lasts plain_platform old_gate first_token 5000 43201000 (some (codes "id1"))
      ((none, 6000) ∷ []) 7000 43201000 (some (codes "id1")) verify_first
      ((λ g exp other e. absurd (cc e)), tt) (omega arith, tt) (omega arith)

abbrev old_password : Option Text
old_password = some (codes "old password")

abbrev new_password : Text
new_password = codes "new password"

change_done :
    change_password plain_platform old_world old_password (some new_password) fresh 9000
    ≡ (new_world, changed (issue plain_platform new_world.gate (codes "id2") 9000))
unfolding change_password begin_change end_change change_inner change_checked change_to rotate
    matches validate_password set_password issue
change_done = refl

abbrev gate_row : Row
gate_row = record { password_hash = codes "h"; salt = codes "s"; signing_secret = codes "k" }

-- Secrets that differ sign differently, since this signature is the secret.
distinct : (k k' b : Text) → k ≢ k' → plain_platform.sign k b ≢ plain_platform.sign k' b
distinct k k' b h = h

change_password-ends_example :
    verify plain_platform new_world.gate (some first_token) 9500
    ≢ valid 43201000 (some (codes "id1"))
change_password-ends_example =
    change_password-ends plain_platform old_world new_world old_password new_password fresh 9000 _
      first_token 5000 9500 43201000 43201000 (some (codes "id1")) (some (codes "id1")) distinct
      (λ e. cc ((list_beq_iff (codes "k1") (codes "k2")).1 e)) change_done verify_first

change_password-admits_example :
    (matches plain_platform new_world.gate (some new_password) ≡ true)
    × (verify plain_platform new_world.gate
          (some (issue plain_platform new_world.gate (codes "id2") 9000).value)
          9500
        ≡ (if leb (9000 + session_ttl_ms) 9500
            then denied session_expired
            else valid (9000 + session_ttl_ms) (some (codes "id2"))))
change_password-admits_example =
    change_password-admits plain_platform old_world new_world old_password new_password fresh 9000 _
      9500 number_of (refl, (refl, (refl, tt))) (refl, (refl, tt)) change_done

change_password-IsConsistent_example :
    IsConsistent
      (change_password plain_platform old_world old_password (some new_password) fresh 9000).0
change_password-IsConsistent_example =
    change_password-IsConsistent plain_platform fresh 9000 old_world old_password
      (some new_password) (record { stored = refl })

abbrev first_row : Option Row
first_row = new_world.row

setup_done :
    setup_admin_password plain_platform none
      (some new_password)
      (some new_password)
      (codes "pepper")
      (codes "k2")
    ≡ (first_row, set_up)
unfolding setup_admin_password setup_with bootstrap validate_password
setup_done = refl

setup_admin_password-set_up_example :
    ◌≡◌ {A = Option Row} none none
    × (some new_password ≡ some new_password)
    × (validate_password (some new_password) ≡ none)
    × ((g : Gate) × (create_auth plain_platform first_row
            (some (codes "other"))
            (codes "s")
            (codes "t")
          ≡ (first_row, enabled from_db g))
        × (matches plain_platform g (some new_password) ≡ true))
setup_admin_password-set_up_example =
    setup_admin_password-set_up plain_platform none first_row (some new_password)
      (some new_password) (some (codes "other")) (codes "pepper") (codes "k2") (codes "s")
      (codes "t") setup_done

create_auth-IsFounded_example :
    IsFounded plain_platform none
      (some (codes "from the env"))
      (create_auth plain_platform none (some (codes "from the env")) (codes "s") (codes "t"))
create_auth-IsFounded_example =
    create_auth-IsFounded plain_platform none (some (codes "from the env")) (codes "s") (codes "t")

-- A decoder for cookies without percent escapes.
abbrev plain_decode : Text → Option Text
plain_decode s = some s

abbrev theme_cookie : Text
theme_cookie = codes "theme=dark"

two_cookies :
    parse_cookies plain_decode (some (codes "theme=dark; hnh_admin=v1.43201000.id1.k1"))
    ≡ some ((codes "theme", codes "dark") ∷ (cookie_name, first_token) ∷ [])
unfolding parse_cookies parse_parts parse_cut cut_first parse_pair assign_decoded assign split trim
    trim_start is_space set
two_cookies = refl

parse_cookies-session_example :
    (parse_cookies plain_decode (some (session_pair first_token))
      ≡ some ((cookie_name, first_token) ∷ []))
    × (get ((codes "theme", codes "dark") ∷ (cookie_name, first_token) ∷ []) cookie_name
        ≡ some first_token)
unfolding is_space
parse_cookies-session_example =
    parse_cookies-session plain_decode theme_cookie first_token _ refl
      (
        refl,
        (
          refl,
          (
            refl,
            (
              refl,
              (
                refl,
                (
                  refl,
                  (
                    refl,
                    (
                      refl,
                      (
                        refl,
                        (refl, (refl, (refl, (refl, (refl, (refl, (refl, (refl, (refl, tt))))))))),
                      ),
                    ),
                  ),
                ),
              ),
            ),
          ),
        ),
      )
      (
        refl,
        (
          refl,
          (
            refl,
            (
              refl,
              (
                refl,
                (
                  refl,
                  (
                    refl,
                    (
                      refl,
                      (
                        refl,
                        (refl, (refl, (refl, (refl, (refl, (refl, (refl, (refl, (refl, tt))))))))),
                      ),
                    ),
                  ),
                ),
              ),
            ),
          ),
        ),
      )
      two_cookies

sent_back :
    serialize_cookie (codes "v1.1.x.y") true 43200
    ≡ codes "hnh_admin=v1.1.x.y; Path=/; HttpOnly; SameSite=Strict; Max-Age=43200; Secure"
unfolding serialize_cookie cookie_bits join_bits decimal
sent_back = refl
