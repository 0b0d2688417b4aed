-- ===== src/Server/Examples.antt =====
-- server/index.js with an admin, a session and two machines, and its theorems there.
use home_net_hub.Prelude.{
  ℕ, ◌≡◌, refl, sym, ap, ◌∙◌, ◌⊎◌, true, false, Option, none, some, [], ◌∷◌, ◌++◌, arith, nat_eq,
  string_eq, list_eq, option_eq, pair_eq,
}
use home_net_hub.Text.{Text, codes, trim, trim_start, is_space}
use home_net_hub.Text.Decimal.{decimal, value, value-decimal}
use home_net_hub.Text.Split.{split}
use home_net_hub.JsMap.{JsMap, get, set, has}
use home_net_hub.ClientIp.{Headers, absent}
use home_net_hub.Limiter
use home_net_hub.Auth.{Platform, Gate, enabled, disabled, not_configured, from_db}
use home_net_hub.Auth.Session.{issue, session_body}
use home_net_hub.Auth.Password.{Fresh, matches}
use home_net_hub.Auth.Cookies.{
  parse_cookies, parse_parts, parse_cut, cut_first, parse_pair, assign_decoded, assign,
  serialize_cookie, check_origin,
}
use home_net_hub.Server.{
  Request, Env, Site, require_admin, token_of, origin_of, is_same_origin, with_session,
}
use home_net_hub.Server.Login.{login, login_configured, login_gated, login_try}
use home_net_hub.Server.Sessions.{login-require_admin}
use home_net_hub.Server.FirstRun.{setup}
use home_net_hub.Server.FirstRun.Claimed.{IsSame, MayClaim, setup-MayClaim}
use home_net_hub.Server.Push.{Hub, PushRequest, Body, push}
use home_net_hub.Server.Push.Accepted.{Decided, push-Decided}

-- A hash that shows its input, a signature that shows its secret, digits read as a number.
abbrev toy : Platform
toy = record {
  hash = λ pw salt. some (salt ++ pw);
  sign = λ k b. k;
  to_number = λ s. some (value s);
}

number_of : (n : ℕ) → toy.to_number (decimal n) ≡ some n
number_of n = ap some (value-decimal n)

abbrev env : Env
env = record {
  platform = toy;
  url_host = λ s. some s;
  decode = λ s. some s;
  trusted = [];
  admin_password = none;
  require_login_to_view = true;
  view_lan_open = true;
}

abbrev no_headers : Headers
no_headers = record {
  x_forwarded_for = absent;
  x_real_ip = absent;
  cf_connecting_ip = absent;
  x_forwarded_host = absent;
  forwarded = absent;
}

abbrev from_browser : Option Text → Request
from_browser cookie = record {
  origin = none;
  hostname = some (codes "hub");
  raw_host = some (codes "hub");
  https = false;
  peer = some (codes "192.168.1.20");
  headers = no_headers;
  cookie = cookie;
}

abbrev gate : Gate
gate = record {
  password_hash = codes "saltold password";
  salt = codes "salt";
  signing_secret = codes "k1";
  revoked = [];
  changing = false;
}

abbrev site : Site
site = record {
  row = none;
  auth = enabled from_db gate;
  login_limiter = [];
  setup_limiter = [];
  setup_in_flight = false;
}

abbrev password : Option Text
password = some (codes "old password")

abbrev with_cookie : Request
with_cookie = from_browser (some (codes "hnh_admin=v1.43201000.id1.k1"))

logged_in : (login env site (from_browser none) password (codes "id1") 1000).1.status ≡ 200
unfolding login login_configured login_gated login_try matches is_same_origin origin_of check_origin
    Limiter.check Limiter.gate Limiter.lock_left get Limiter.prune with_session
logged_in = refl

cookie_sent : token_of env with_cookie ≡ some (some (codes "v1.43201000.id1.k1"))
unfolding token_of parse_cookies parse_parts parse_cut cut_first parse_pair assign_decoded assign
    get set split trim trim_start is_space
cookie_sent = refl

token_issued : (issue toy gate (codes "id1") 1000).value ≡ codes "v1.43201000.id1.k1"
unfolding issue session_body decimal
token_issued = refl

none_revoked : has gate.revoked (some (codes "id1")) ≡ false
unfolding get
none_revoked = refl

login-require_admin_example :
    (matches toy gate password ≡ true)
    × ((login env site (from_browser none) password (codes "id1") 1000).1.set_cookie
        ≡ some (
            serialize_cookie
              (issue toy gate (codes "id1") 1000).value
              false
              (issue toy gate (codes "id1") 1000).max_age_s))
    × (require_admin env
          (login env site (from_browser none) password (codes "id1") 1000).0
          with_cookie
          5000
        ≡ none)
login-require_admin_example =
    login-require_admin env site from_db gate (from_browser none) with_cookie password (codes "id1")
      1000 5000 refl logged_in number_of (refl, (refl, (refl, tt))) (refl, (refl, tt)) none_revoked
      (cookie_sent ∙ ap (λ t. some (some t)) (sym token_issued)) (ground arith)

abbrev unclaimed : Site
unclaimed = record site { auth = disabled not_configured }

abbrev fresh : Fresh
fresh = record { salt = codes "pepper"; secret = codes "k2"; id = codes "id2" }

setup-MayClaim_example :
    IsSame unclaimed
      (setup env unclaimed
        (from_browser none)
        (some (codes "new password"))
        (some (codes "new password"))
        fresh
        1000).0
    ⊎ MayClaim env unclaimed (from_browser none) 1000
setup-MayClaim_example =
    setup-MayClaim env unclaimed (from_browser none) (some (codes "new password"))
      (some (codes "new password")) fresh 1000

abbrev hub : Hub
hub = record {
  targets = (codes "m25", record { token_env = some (codes "PUSH"); stale_after_s = none }) ∷ [];
  bindings = record { rows = []; logged = []; lines = [] };
  last_push = [];
  handled = [];
}

abbrev body : Body
body = record {
  size = 120;
  fields = codes "v" ∷ codes "id" ∷ codes "ts" ∷ codes "os" ∷ codes "gpus" ∷ [];
  id = some (codes "m25");
  reported = none;
}

abbrev report : PushRequest
report = record {
  target_id = codes "m25";
  token = some (codes "secret");
  peer = some (codes "192.168.1.25");
  headers = no_headers;
  body = some body;
}

abbrev variables : JsMap Text Text
variables = (codes "PUSH", codes "secret") ∷ []

push-Decided_example : Decided hub variables [] report 9000 (push hub variables [] report 9000)
push-Decided_example = push-Decided hub variables [] report 9000
