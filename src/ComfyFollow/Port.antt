-- ===== src/ComfyFollow/Port.antt =====
-- Which port comfyPort of server/comfy_follow.js answers.
use home_net_hub.Prelude.{
  ℕ, ◌≤◌, min, ◌≡◌, refl, sym, ap, ◌∙◌, subst, ◌⊎◌, inl, inr, true, false, ◌||◌, Option, none, some,
  List, [], ◌∷◌, ◌++◌, arith, leb, nat_beq, if◌then◌else◌, nat_beq_iff, Bool-cases, if-elim, get_or,
  beq_refl, nat_eq, string_eq, list_eq, option_eq, pair_eq,
}
use home_net_hub.ComfyFollow.{
  Listener, Info, Machine, comfy_info, is_loopback_addr, usable_port, includes_port, add_port,
  collect_ports, reachable_ports, lowest, has_port, cmd_port_of, choose_port, comfy_port,
}

-- A listener among these that the hub can reach, with this port.
pub data Reachable : List Listener → ℕ → Type 0 where
  here :
      (l : Listener) (ls : List Listener) (p : ℕ)
      → l.port ≡ some p
      → 1 ≤ p
      → p ≤ 65535
      → is_loopback_addr l.addr ≡ false
      → Reachable (l ∷ ls) p
  there : (l : Listener) (ls : List Listener) (p : ℕ) → Reachable ls p → Reachable (l ∷ ls) p

usable_port-some :
    (l : Listener) (p : ℕ)
    → usable_port l ≡ some p
    → (l.port ≡ some p) × (1 ≤ p) × (p ≤ 65535) × (is_loopback_addr l.addr ≡ false)
unfolding usable_port
usable_port-some l p h =
    (ground (arith, h), ground (arith, h), ground (arith, h), ground (arith, h))

includes_append :
    (out : List ℕ) (p q : ℕ)
    → includes_port (out ++ (q ∷ [])) p ≡ (includes_port out p || nat_beq p q)
unfolding includes_port
includes_append [] p q = ground arith
includes_append (x ∷ out) p q = ground (arith, includes_append out p q)

add_port-or :
    (out : List ℕ) (p q : ℕ)
    → includes_port (add_port out (some q)) p ≡ true
    → (includes_port out p || nat_beq p q) ≡ true
unfolding add_port
add_port-or out p q =
    if-elim (λ ps. includes_port ps p ≡ true → (includes_port out p || nat_beq p q) ≡ true)
      (includes_port out q) out (out ++ (q ∷ [])) (λ _ h. ground (arith, h))
      (λ _ h. sym (includes_append out p q) ∙ h)

add_port-includes :
    (out : List ℕ) (o : Option ℕ) (p : ℕ)
    → includes_port (add_port out o) p ≡ true
    → (includes_port out p ≡ true) ⊎ (o ≡ some p)
unfolding add_port
add_port-includes out none p h = inl h
add_port-includes out (some q) p h = elim (Bool-cases (includes_port out p)) [
  | inl e ↦ inl e
  | inr e ↦ inr (ap some (sym ((nat_beq_iff p q).0 (ground (arith, e, add_port-or out p q h)))))
]

collect_ports-Reachable :
    (out : List ℕ) (ls : List Listener) (p : ℕ)
    → includes_port (collect_ports out ls) p ≡ true
    → (includes_port out p ≡ true) ⊎ Reachable ls p
unfolding collect_ports
collect_ports-Reachable out [] p h = inl h
collect_ports-Reachable out (l ∷ ls) p h =
    elim (collect_ports-Reachable (add_port out (usable_port l)) ls p h) [
      | inr r ↦ inr (there l ls p r)
      | inl e ↦ elim (add_port-includes out (usable_port l) p e) [
        | inl old ↦ inl old
        | inr new ↦
            let (port, low, high, far) = usable_port-some l p new in
            inr (here l ls p port low high far)
      ]
    ]

-- The ports of what is known to listen.
abbrev pub listeners : Option Machine → List Listener
listeners m = elim (comfy_info m) [ none ↦ [] | some c ↦ get_or c.listen [] ]

reachable_ports-Reachable :
    (o : Option Info) (p : ℕ)
    → includes_port (reachable_ports o) p ≡ true
    → Reachable (elim o [ none ↦ [] | some c ↦ get_or c.listen [] ]) p
unfolding reachable_ports includes_port
reachable_ports-Reachable none p h = absurd (cc h)
reachable_ports-Reachable (some c) p h =
    (elim c.listen
        as (λ o.
          includes_port (elim o [ none ↦ [] | some ls ↦ collect_ports [] ls ]) p ≡ true
          → Reachable (get_or o []) p) [
            | none ↦ (λ (e : includes_port [] p ≡ true). absurd (cc e))
            | some ls ↦ (λ e. elim (collect_ports-Reachable [] ls p e) [
              | inl x ↦ absurd (cc x)
              | inr r ↦ r
            ])
          ])
      h

lowest-includes : (q : ℕ) (ports : List ℕ) → includes_port (q ∷ ports) (lowest q ports) ≡ true
unfolding includes_port lowest
lowest-includes q [] = ground (arith, nat_beq_iff q q)
lowest-includes q (r ∷ rs) = elim (Bool-cases (leb q (lowest r rs))) [
  | inl e ↦
      let first : q ≡ min q (lowest r rs) = ground (arith, e) in
      subst (λ x. includes_port (q ∷ r ∷ rs) x ≡ true) first
        (ap (λ b. b || includes_port (r ∷ rs) q) (beq_refl q))
  | inr e ↦
      let later : lowest r rs ≡ min q (lowest r rs) = ground (arith, e) in
      subst (λ x. includes_port (q ∷ r ∷ rs) x ≡ true) later (ground (arith, lowest-includes r rs))
]

choose_port-includes :
    (ports : List ℕ) (cmd configured : Option ℕ) (p : ℕ)
    → choose_port ports cmd configured ≡ some p
    → (configured ≡ some p) ⊎ (includes_port ports p ≡ true)
unfolding choose_port
choose_port-includes [] cmd configured p h = inl h
choose_port-includes (q ∷ qs) cmd configured p h =
    if-elim (λ o. o ≡ some p → (configured ≡ some p) ⊎ (includes_port (q ∷ qs) p ≡ true))
      (has_port (q ∷ qs) configured) configured
      (if has_port (q ∷ qs) cmd then cmd else some (lowest q qs)) (λ _ e. inl e)
      (λ _.
        if-elim (λ o. o ≡ some p → (configured ≡ some p) ⊎ (includes_port (q ∷ qs) p ≡ true))
          (has_port (q ∷ qs) cmd) cmd (some (lowest q qs))
          (λ there e. inr (unfold has_port in ap (has_port (q ∷ qs)) (sym e) ∙ there))
          (λ _ e. inr (subst (λ x. includes_port (q ∷ qs) x ≡ true) (cc e) (lowest-includes q qs))))
      h

-- The port to probe is the one configured, or one on which the machine says that ComfyUI listens:
-- a port from 1 to 65535 of a listener that is not bound to loopback.
pub comfy_port-Reachable :
    (m : Option Machine) (configured : Option ℕ) (p : ℕ)
    → comfy_port m configured ≡ some p
    → (configured ≡ some p) ⊎ Reachable (listeners m) p
unfolding comfy_port
comfy_port-Reachable m configured p h =
    elim (choose_port-includes (reachable_ports (comfy_info m)) (cmd_port_of (comfy_info m))
      configured p h) [ inl e ↦ inl e | inr e ↦ inr (reachable_ports-Reachable (comfy_info m) p e) ]

choose_port-stays :
    (ports : List ℕ) (cmd configured : Option ℕ)
    → (ports ≡ []) ⊎ (has_port ports configured ≡ true)
    → choose_port ports cmd configured ≡ configured
unfolding choose_port
choose_port-stays [] cmd configured h = refl
choose_port-stays (q ∷ qs) cmd configured (inl h) = absurd (cc h)
choose_port-stays (q ∷ qs) cmd configured (inr h) = rw (h)

-- The configured port stays where ComfyUI listens on it, and where the machine is off or stale, so
-- that nothing better is known.
pub comfy_port-stays :
    (m : Option Machine) (configured : Option ℕ)
    → (comfy_info m ≡ none) ⊎ (has_port (reachable_ports (comfy_info m)) configured ≡ true)
    → comfy_port m configured ≡ configured
unfolding comfy_port
comfy_port-stays m configured (inl h) =
    choose_port-stays (reachable_ports (comfy_info m)) (cmd_port_of (comfy_info m)) configured
      (inl (unfold reachable_ports in ap reachable_ports h))
comfy_port-stays m configured (inr h) =
    choose_port-stays (reachable_ports (comfy_info m)) (cmd_port_of (comfy_info m)) configured
      (inr h)
