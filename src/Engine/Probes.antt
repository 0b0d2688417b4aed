-- ===== src/Engine/Probes.antt =====
-- What a probe of server/engine.js changes, and when.
use home_net_hub.Prelude.{
  ℕ, ◌+◌, ◌/◌, ◌≤◌, ◌≡◌, refl, sym, ap, ◌∙◌, subst, ◌⊎◌, inl, inr, Bool, true, false, not, Option,
  none, some, List, [], ◌∷◌, arith, if◌then◌else◌, nat_beq_iff, Option-cases, select, All, ◌==◌,
  beq_refl, nat_eq, string_eq, list_eq, option_eq, pair_eq,
}
use home_net_hub.Engine.{
  Text, Kind, strata, llamacpp, same_kind, Answers, Found, probe_port, probe_ports, Current, Node,
  LogRow, is_changed, since_of, current_of, probed, log_rows, schedule, probe, retry_ms,
}

-- No port before one of these answered, and that one did.
abbrev pub FirstOf : (ℕ → Answers) → List ℕ → Found → Type 0
FirstOf ask [] f = ⊥
FirstOf ask (port ∷ ports) f =
    (probe_port port (ask port) ≡ some f)
    ⊎ (probe_port port (ask port) ≡ none) × FirstOf ask ports f

-- The first candidate port that answers decides, and where none is found, none answered.
probe_ports-FirstOf :
    (ask : ℕ → Answers) (ports : List ℕ) (f : Found)
    → probe_ports ask ports ≡ some f
    → FirstOf ask ports f
unfolding probe_ports
probe_ports-FirstOf ask [] f h = absurd (cc h)
probe_ports-FirstOf ask (port ∷ ports) f h = elim (Option-cases (probe_port port (ask port))) [
  | inl e ↦ inr (e, probe_ports-FirstOf ask ports f (ground (arith, e, h)))
  | inr (g, e) ↦ inl (ground (arith, e, h))
]

probe_ports-none :
    (ask : ℕ → Answers) (ports : List ℕ)
    → probe_ports ask ports ≡ none
    → All (λ port. probe_port port (ask port) ≡ none) ports
unfolding probe_ports
probe_ports-none ask [] h = tt
probe_ports-none ask (port ∷ ports) h = elim (Option-cases (probe_port port (ask port))) [
  | inl e ↦ (e, probe_ports-none ask ports (ground (arith, e, h)))
  | inr (g, e) ↦ absurd (ground (arith, e, h))
]

-- The rows of a node, and those of the others.
abbrev pub rows_of : Text → List LogRow → List LogRow
rows_of id log = select (λ (r : LogRow). r.node == id) log

abbrev pub other_rows : Text → List LogRow → List LogRow
other_rows id log = select (λ (r : LogRow). not (r.node == id)) log

-- The latest of these rows is that of the current engine and port, at the second it began.
abbrev pub IsLatest : Option Current → List LogRow → Type 0
IsLatest none log = Unit
IsLatest (some c) [] = ⊥
IsLatest (some c) (r ∷ rs) =
    (r.next.engine ≡ c.engine) × (r.next.port ≡ c.port) × (r.at ≡ c.since / 1000)

abbrev pub IsLogged : Node → List LogRow → Type 0
IsLogged n log = IsLatest n.cur (rows_of n.id log)

rows_of-own :
    (id : Text) (r : LogRow) (log : List LogRow)
    → r.node ≡ id
    → (rows_of id (r ∷ log) ≡ r ∷ rows_of id log) × (other_rows id (r ∷ log) ≡ other_rows id log)
rows_of-own id r log e =
    let own : (r.node == id) ≡ true = rw (e) (beq_refl id) in (rw (own) refl, rw (own) refl)

same_kind_lem : (a b : Kind) → same_kind a b ≡ true → a ≡ b
same_kind_lem strata strata h = refl
same_kind_lem strata llamacpp h = absurd (cc h)
same_kind_lem llamacpp strata h = absurd (cc h)
same_kind_lem llamacpp llamacpp h = refl

unchanged :
    (c : Current) (f : Found)
    → is_changed (some c) f ≡ false
    → (c.engine ≡ f.engine) × (c.port ≡ f.port)
unfolding is_changed
unchanged c f h = (
  same_kind_lem c.engine f.engine (ground (arith, h)),
  ground (arith, h, nat_beq_iff c.port f.port),
)

IsLatest-when :
    (c : Current) (f : Found) (now : ℕ) (row : LogRow) (rows : List LogRow) (b : Bool)
    → (b ≡ false → (c.engine ≡ f.engine) × (c.port ≡ f.port))
    → (row.next ≡ f) × (row.at ≡ now / 1000)
    → IsLatest (some c) rows
    → IsLatest
        (some (record {
          engine = f.engine;
          port = f.port;
          mirror = f.mirror;
          slots = f.slots;
          since = if b then now else c.since;
        }))
        (if b then row ∷ rows else rows)
IsLatest-when c f now row rows true same e h =
    (ap (λ (x : Found). x.engine) e.0, ap (λ (x : Found). x.port) e.0, e.1)
IsLatest-when c f now row [] false same e h = h
IsLatest-when c f now row (r ∷ rs) false same e h = (h.0 ∙ (same refl).0, h.1 ∙ (same refl).1, h.2)

row_of : Node → Found → ℕ → LogRow
row_of n f now = record { at = now / 1000; node = n.id; prev = n.cur; next = f }

rows_of-when :
    (n : Node) (f : Found) (now : ℕ) (log : List LogRow) (b : Bool)
    → (rows_of n.id (if b then row_of n f now ∷ log else log)
        ≡ (if b then row_of n f now ∷ rows_of n.id log else rows_of n.id log))
      × (other_rows n.id (if b then row_of n f now ∷ log else log) ≡ other_rows n.id log)
unfolding row_of
rows_of-when n f now log true = rows_of-own n.id (row_of n f now) log refl
rows_of-when n f now log false = (refl, refl)

found-IsLatest :
    (prev : Option Current) (f : Found) (now : ℕ) (row : LogRow) (rows : List LogRow)
    → (row.next ≡ f) × (row.at ≡ now / 1000)
    → IsLatest prev rows
    → IsLatest (some (current_of prev f now)) (if is_changed prev f then row ∷ rows else rows)
unfolding current_of is_changed since_of
found-IsLatest none f now row rows e g =
    (ap (λ (x : Found). x.engine) e.0, ap (λ (x : Found). x.port) e.0, e.1)
found-IsLatest (some c) f now row rows e g =
    IsLatest-when c f now row rows (is_changed (some c) f) (unchanged c f) e g

probed-IsLogged :
    (n : Node) (found : Option Found) (now : ℕ) (log : List LogRow)
    → IsLogged n log
    → IsLogged (probed n found now) (log_rows n found now log)
      × (other_rows n.id (log_rows n found now log) ≡ other_rows n.id log)
unfolding probed log_rows row_of
probed-IsLogged n none now log h = (h, refl)
probed-IsLogged n (some f) now log h =
    let (own, others) = rows_of-when n f now log (is_changed n.cur f) in
    (
      subst (IsLatest (some (current_of n.cur f now))) (sym own)
          (found-IsLatest n.cur f now (row_of n f now) (rows_of n.id log) (refl, refl) h),
      others,
    )

-- The table engine_log and a node agree, whatever the ports answer: if they did before a probe of the
-- node, then after it the latest row of the node, if the node has an engine, is the engine and the
-- port that the node has now, at the second since when it has had them; and the rows of all other
-- nodes are as they were.
pub probe-IsLogged :
    (ask : ℕ → Answers) (ports : List ℕ) (every now : ℕ) (n : Node) (log : List LogRow)
    → IsLogged n log
    → let (n', log') = probe ask ports every now (n, log) in
      IsLogged n' log' × (other_rows n.id log' ≡ other_rows n.id log)
unfolding probe schedule
probe-IsLogged ask ports every now n log h = probed-IsLogged n (probe_ports ask ports) now log h

-- What a probe finds: the first candidate port that answers decides, and its engine is the node's
-- from then on, with no error; or no port answered, and then the node keeps the engine it had, the
-- log stays as it is, and the node is looked at again within a minute.
pub probe_lem :
    (ask : ℕ → Answers) (ports : List ℕ) (every now : ℕ) (n : Node) (log : List LogRow)
    → let (n', log') = probe ask ports every now (n, log) in
      ((f : Found) × FirstOf ask ports f
        × (n'.cur ≡ some (current_of n.cur f now))
        × (n'.is_error ≡ false))
      ⊎ (All (λ port. probe_port port (ask port) ≡ none) ports)
        × (n'.cur ≡ n.cur)
        × (log' ≡ log)
        × (n'.next_at ≤ now + retry_ms)
unfolding probe schedule probed log_rows
probe_lem ask ports every now n log = by_found (probe_ports ask ports) refl
  where
    by_found :
        (o : Option Found)
        → probe_ports ask ports ≡ o
        → ((f : Found) × FirstOf ask ports f
            × ((schedule (probed n o now) every now).cur ≡ some (current_of n.cur f now))
            × ((schedule (probed n o now) every now).is_error ≡ false))
          ⊎ (All (λ port. probe_port port (ask port) ≡ none) ports)
            × ((schedule (probed n o now) every now).cur ≡ n.cur)
            × (log_rows n o now log ≡ log)
            × ((schedule (probed n o now) every now).next_at ≤ now + retry_ms)
    by_found none e = inr (probe_ports-none ask ports e, refl, refl, omega arith)
    by_found (some f) e = inl (f, probe_ports-FirstOf ask ports f e, refl, refl)
