-- ===== src/CredStore/HostKeys.antt =====
-- Trust on first use in server/store/cred_store.js: a host's key is pinned until it is forgotten.
use home_net_hub.Prelude.{
  ℕ, ◌≡◌, refl, sym, ap, ◌∙◌, subst, ◌≢◌, inl, inr, Option, none, some, List, [], ◌∷◌,
  if◌then◌else◌, Bool-cases, if-elim, ◌==◌, beq_refl, beq_true, nat_eq, string_eq, list_eq,
  option_eq, pair_eq,
}
use home_net_hub.Text.{Text}
use home_net_hub.JsMap.{get, set, get-set_self, get-set_ne}
use home_net_hub.CredStore.{
  CredStore, KnownHost, HostKey, new_key, key_match, key_mismatch, first_sight, seen_again,
  check_known, check_host_key,
}

-- Checks of any hosts, the latest first: address, fingerprint and time.
pub check_all : CredStore → List (Text × Text × ℕ) → CredStore
check_all db [] = db
check_all db ((hostport, fingerprint, now) ∷ earlier) =
    (check_host_key (check_all db earlier) hostport fingerprint now).0

abbrev IsPinned : CredStore → Text → Text → Type 0
IsPinned db hostport fingerprint =
    (h : KnownHost) × (get db.known_hosts hostport ≡ some h) × (h.fingerprint ≡ fingerprint)

known-IsPinned :
    (db : CredStore) (hostport fingerprint other seen : Text) (now : ℕ) (o : Option KnownHost)
    → get db.known_hosts other ≡ o
    → IsPinned db hostport fingerprint
    → IsPinned (check_known db other seen now o).0 hostport fingerprint
unfolding check_known first_sight seen_again
known-IsPinned db hostport fingerprint other seen now none e (h, known, same) =
    let fresh : KnownHost = record { fingerprint = seen; first_seen = now; last_seen = now } in
    let ne : other ≢ hostport = λ q. absurd (cc (sym (ap (get db.known_hosts) q ∙ known) ∙ e)) in
    (h, get-set_ne db.known_hosts other hostport fresh ne ∙ known, same)
known-IsPinned db hostport fingerprint other seen now (some w) e (h, known, same) =
    let again : KnownHost = record w { last_seen = now } in
    let P : CredStore × HostKey → Type 0 = λ x. IsPinned x.0 hostport fingerprint in
    if-elim P (w.fingerprint == seen)
      (record db { known_hosts = set db.known_hosts other again }, key_match) (db, key_mismatch)
      (λ _. elim (Bool-cases (other == hostport)) [
        | inl b ↦
            let q : other ≡ hostport = beq_true other hostport b in
            let one : some w ≡ some h = sym e ∙ ap (get db.known_hosts) q ∙ known in
            let whole : w ≡ h = cc one in
            (
              again,
              ap (get (set db.known_hosts other again)) (sym q)
                  ∙ get-set_self db.known_hosts other again,
              ap (λ (x : KnownHost). x.fingerprint) whole ∙ same,
            )
        | inr b ↦
            let ne : other ≢ hostport =
              λ q. absurd (cc (sym (ap (λ x. other == x) (sym q) ∙ beq_refl other) ∙ b)) in
            (h, get-set_ne db.known_hosts other hostport again ne ∙ known, same)
      ])
      (λ _. (h, known, same))

check_host_key-IsPinned :
    (db : CredStore) (hostport fingerprint other seen : Text) (now : ℕ)
    → IsPinned db hostport fingerprint
    → IsPinned (check_host_key db other seen now).0 hostport fingerprint
unfolding check_host_key
check_host_key-IsPinned db hostport fingerprint other seen now pinned =
    known-IsPinned db hostport fingerprint other seen now (get db.known_hosts other) refl pinned

check_all-IsPinned :
    (db : CredStore) (hostport fingerprint : Text) (later : List (Text × Text × ℕ))
    → IsPinned db hostport fingerprint
    → IsPinned (check_all db later) hostport fingerprint
unfolding check_all
check_all-IsPinned db hostport fingerprint [] pinned = pinned
check_all-IsPinned db hostport fingerprint ((other, seen, now) ∷ earlier) pinned =
    check_host_key-IsPinned (check_all db earlier) hostport fingerprint other seen now
      (check_all-IsPinned db hostport fingerprint earlier pinned)

check_known-IsPinned :
    (db : CredStore) (hostport first : Text) (start : ℕ)
    → ((check_known db hostport first start none).1 ≡ new_key)
      × IsPinned (check_known db hostport first start none).0 hostport first
unfolding check_known first_sight
check_known-IsPinned db hostport first start =
    let fresh : KnownHost = record { fingerprint = first; first_seen = start; last_seen = start } in
    (refl, (fresh, get-set_self db.known_hosts hostport fresh, refl))

seen_again-key :
    (db : CredStore) (hostport first seen : Text) (now : ℕ) (h : KnownHost)
    → h.fingerprint ≡ first
    → (check_known db hostport seen now (some h)).1
      ≡ (if first == seen then key_match else key_mismatch)
unfolding check_known seen_again
seen_again-key db hostport first seen now h same =
    if-elim (λ (x : CredStore × HostKey). x.1 ≡ (if first == seen then key_match else key_mismatch))
      (h.fingerprint == seen)
      (
        record db { known_hosts = set db.known_hosts hostport (record h { last_seen = now }) },
        key_match,
      )
      (db, key_mismatch)
      (λ b.
        sym (ap (λ x. if x then key_match else key_mismatch) (ap (λ f. f == seen) (sym same) ∙ b)))
      (λ b.
        sym (ap (λ x. if x then key_match else key_mismatch) (ap (λ f. f == seen) (sym same) ∙ b)))

-- A host that was not known is new, and its key is pinned: through any later checks of any hosts, a
-- check of it answers that the key matches exactly if the key is the first one.
pub check_host_key-lasts :
    (db : CredStore) (hostport first seen : Text) (start now : ℕ) (later : List (Text × Text × ℕ))
    → get db.known_hosts hostport ≡ none
    → ((check_host_key db hostport first start).1 ≡ new_key)
      × ((check_host_key
            (check_all (check_host_key db hostport first start).0 later)
            hostport
            seen
            now).1
          ≡ (if first == seen then key_match else key_mismatch))
unfolding check_host_key
check_host_key-lasts db hostport first seen start now later unknown =
    let known_as = λ (o : Option KnownHost). check_known db hostport first start o in
    let (h, known, same) =
      check_all-IsPinned (check_host_key db hostport first start).0 hostport first later (
        subst (λ o. IsPinned (known_as o).0 hostport first) (sym unknown)
          (check_known-IsPinned db hostport first start).1) in
    (
      ap (λ o. (known_as o).1) unknown ∙ (check_known-IsPinned db hostport first start).0,
      ap
            (λ o.
              (check_known (check_all (check_host_key db hostport first start).0 later) hostport
                seen now o).1)
            known
          ∙ seen_again-key (check_all (check_host_key db hostport first start).0 later) hostport
              first seen now h same,
    )
