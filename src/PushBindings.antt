-- ===== src/PushBindings.antt =====
-- server/store/push_bindings.js: which machine a push target belongs to. The table is `rows`, by
-- target; `logged` throttles the log, whose lines stand in `lines`, the latest first.
pub mod Bound
pub mod Alerts
mod Examples
use home_net_hub.Prelude.{
  ℕ, zero, suc, ◌+◌, ◌*◌, Bool, false, ◌&&◌, ◌||◌, Option, none, some, List, [], ◌∷◌, ◌++◌, map,
  ltb, leb, nat_beq, if◌then◌else◌, length, take, all, select, get_or, ◌==◌, nat_eq, string_eq,
  list_eq, option_eq,
}
use home_net_hub.Text.{Text, codes, is_digit, lower}
use home_net_hub.JsMap.{JsMap, get, set, delete, has}
use home_net_hub.NetGuard.{strip_prefix, mapped_prefix}

abbrev pub alert_ttl_ms : ℕ
alert_ttl_ms = 24 * 3600 * 1000

abbrev pub log_every_ms : ℕ
log_every_ms = 10 * 60 * 1000

pub record Host : Type 0 where
  pub machine_id : Text
  pub hostname : Text

-- extra.host of a push where it is an object: a field that is no string is none.
pub record Reported : Type 0 where
  pub machine_id : Option Text
  pub hostname : Option Text

-- [0-9a-f]
is_hex : ℕ → Bool
is_hex c = is_digit c || leb b'a' c && leb c b'f'

-- [\w.-]
is_name : ℕ → Bool
is_name c =
    is_digit c
    || leb b'a' c && leb c b'z'
    || leb b'A' c && leb c b'Z'
    || nat_beq c b'_'
    || nat_beq c b'.'
    || nat_beq c b'-'

-- /^[0-9a-f]{32,128}$/
unfoldable pub is_machine_id : Text → Bool
unfolding is_hex
is_machine_id s = leb 32 (length s) && leb (length s) 128 && all is_hex s

unfoldable pub clean : Option Text → Text
unfolding is_name
clean none = []
clean (some s) = take 63 (select is_name s)

unfoldable pub host_with : Option Text → Option Text → Option Host
host_with none name = none
host_with (some mid) name =
    if is_machine_id mid then some (record { machine_id = mid; hostname = clean name }) else none

unfoldable pub host_of : Option Reported → Option Host
host_of none = none
host_of (some r) = host_with r.machine_id r.hostname

unfoldable pub or_unknown : Text → Text
or_unknown [] = codes "unknown"
or_unknown (c ∷ s) = c ∷ s

-- The address without the IPv4-mapped prefix.
unfoldable pub norm_ip : Option Text → Text
norm_ip a = let s = get_or a [] in or_unknown (get_or (strip_prefix mapped_prefix s) s)

pub record Row : Type 0 where
  pub machine_id : Text
  pub hostname : Text
  pub ip : Text
  pub bound_at : ℕ
  pub alert_ip : Option Text
  pub alert_host : Option Text
  pub alert_mid : Option Text
  pub alert_first : Option ℕ
  pub alert_at : Option ℕ
  pub alert_count : ℕ

pub record Logged : Type 0 where
  pub key : Text
  pub at : ℕ
  pub since : ℕ

pub data Line : Type 0 where
  bound_line moved_line : Text → Line
  refused_line : Text → ℕ → Line

pub record State : Type 0 where
  pub rows : JsMap Text Row
  pub logged : JsMap Text Logged
  pub lines : List Line

pub data Answer : Type 0 where
  accepted bound unexpected_host no_host_info : Answer

unfoldable pub new_row : Host → Text → ℕ → Row
new_row h ip now = record {
  machine_id = h.machine_id;
  hostname = h.hostname;
  ip = ip;
  bound_at = now;
  alert_ip = none;
  alert_host = none;
  alert_mid = none;
  alert_first = none;
  alert_at = none;
  alert_count = 0;
}

unfoldable pub is_same : Option Host → Row → Bool
is_same none r = false
is_same (some h) r = h.machine_id == r.machine_id && map lower h.hostname == map lower r.hostname

-- `host?.machineId || null`
unfoldable pub or_null : Option Host → Option Text
or_null none = none
or_null (some h) = if h.machine_id == [] then none else some h.machine_id

unfoldable pub name_or_empty : Option Host → Text
name_or_empty none = []
name_or_empty (some h) = h.hostname

-- The UPDATE of a refused push.
unfoldable pub alerted : Row → Option Host → Text → ℕ → Row
alerted r host ip now = record r {
  alert_ip = some ip;
  alert_host = some (name_or_empty host);
  alert_mid = or_null host;
  alert_first = some (get_or r.alert_first now);
  alert_at = some now;
  alert_count = r.alert_count + 1;
}

-- `${ip}|${host?.machineId || ''}`
unfoldable pub log_key : Option Host → Text → Text
log_key host ip = ip ++ (b'|' ∷ get_or (or_null host) [])

-- A new line for the refusal, with how many were not logged since the last.
unfoldable pub log_anew : State → Text → Text → ℕ → ℕ → State
log_anew st target key now more = record st {
  logged = set st.logged target (record { key = key; at = now; since = 0 });
  lines = refused_line target more ∷ st.lines;
}

unfoldable pub log_after : State → Text → Text → ℕ → Option Logged → State
log_after st target key now none = log_anew st target key now 0
log_after st target key now (some prev) =
    if prev.key == key && ltb now (prev.at + log_every_ms)
    then record st { logged = set st.logged target (record prev { since = prev.since + 1 }) }
    else log_anew st target key now (if prev.key == key then prev.since else 0)

unfoldable pub log_refusal : State → Text → Option Host → Text → ℕ → State
log_refusal st target host ip now = log_after st target (log_key host ip) now (get st.logged target)

unfoldable pub check_unbound : State → Text → Option Host → Text → ℕ → State × Answer
check_unbound st target none ip now = (st, accepted)
check_unbound st target (some h) ip now = (
  record st { rows = set st.rows target (new_row h ip now); lines = bound_line target ∷ st.lines },
  bound,
)

unfoldable pub refusal : Option Host → Answer
refusal none = no_host_info
refusal (some h) = unexpected_host

unfoldable pub keep_ip : State → Text → Row → Text → State
keep_ip st target r ip = if ip == r.ip then st else record st {
  rows = set st.rows target (record r { ip = ip });
  lines = moved_line target ∷ st.lines;
}

unfoldable pub refuse : State → Text → Row → Option Host → Text → ℕ → State
refuse st target r host ip now =
    log_refusal (record st { rows = set st.rows target (alerted r host ip now) }) target host ip now

unfoldable pub check_bound : State → Text → Row → Option Host → Text → ℕ → State × Answer
check_bound st target r host ip now =
    if is_same host r
    then (keep_ip st target r ip, accepted)
    else (refuse st target r host ip now, refusal host)

unfoldable pub check_row : State → Text → Option Row → Option Host → Text → ℕ → State × Answer
check_row st target none host ip now = check_unbound st target host ip now
check_row st target (some r) host ip now = check_bound st target r host ip now

-- Decide one push.
unfoldable pub check : State → Text → Option Host → Text → ℕ → State × Answer
check st target host ip now = check_row st target (get st.rows target) host ip now

pub record Alert : Type 0 where
  pub ip : Option Text
  pub hostname : Text
  pub at : ℕ
  pub first : Option ℕ
  pub count : ℕ

unfoldable pub alert_at : Row → Option ℕ → ℕ → Option Alert
alert_at r none now = none
alert_at r (some zero) now = none
alert_at r (some (suc at)) now =
    if ltb (suc at + alert_ttl_ms) now
    then none
    else some (record {
      ip = r.alert_ip;
      hostname = get_or r.alert_host [];
      at = suc at;
      first = r.alert_first;
      count = r.alert_count;
    })

unfoldable pub alert_of : Option Row → ℕ → Option Alert
alert_of none now = none
alert_of (some r) now = alert_at r r.alert_at now

-- target -> alert, for every row that has one
unfoldable pub alerts : JsMap Text Row → ℕ → JsMap Text Alert
alerts [] now = []
alerts ((target, r) ∷ rows) now =
    let rest = alerts rows now in
    elim (alert_of (some r) now) [ none ↦ rest | some a ↦ (target, a) ∷ rest ]

-- The row that was there.
unfoldable pub reset : State → Text → State × Option Row
reset st target = (
  record st { rows = delete st.rows target; logged = delete st.logged target },
  get st.rows target,
)

unfoldable pub cleared : Row → Row
cleared r = record r {
  alert_ip = none;
  alert_host = none;
  alert_mid = none;
  alert_first = none;
  alert_at = none;
  alert_count = 0;
}

unfoldable pub clear_rows : JsMap Text Row → Text → Option Row → JsMap Text Row
clear_rows rows target none = rows
clear_rows rows target (some r) = set rows target (cleared r)

-- Whether there was such a target.
unfoldable pub clear_alert : State → Text → State × Bool
clear_alert st target = (
  record st {
    rows = clear_rows st.rows target (get st.rows target);
    logged = delete st.logged target;
  },
  has st.rows target,
)
