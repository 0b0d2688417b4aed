-- ===== src/CredStore/Secrets.antt =====
-- A secret from the vault through the table of server/store/cred_store.js and back.
use home_net_hub.Prelude.{
  ℕ, ◌≡◌, sym, ap, ◌∙◌, ◌≢◌, false, Option, none, some, [], if◌then◌else◌, if_none, map_option,
  ◌==◌, beq_ne, nat_eq, string_eq, list_eq, option_eq, pair_eq,
}
use home_net_hub.Text.{Text}
use home_net_hub.JsMap.{get, set, get-set_self, get-set_ne}
use home_net_hub.CredStore.{
  CredStore, Credential, Listed, listed, get_credential, secret_of, is_taken, insert,
}

-- A credential that is inserted had an id and a name that no other had; its ciphertext, which is not
-- empty, is then what secretOf gives, the listing shows the rest, and every other credential is as it
-- was.
pub insert-secret_of :
    (db db' : CredStore) (id name type_name username secret_enc other : Text) (now : ℕ)
    (shown : Option Listed)
    → insert db id name type_name username secret_enc now ≡ some (db', shown)
    → secret_enc ≢ []
    → id ≢ other
    → (is_taken db id name ≡ false)
      × (secret_of db' id ≡ some secret_enc)
      × (shown
          ≡ some (record {
            id = id;
            name = name;
            type_name = type_name;
            username = username;
            created_at = now;
          }))
      × (secret_of db' other ≡ secret_of db other)
unfolding insert secret_of get_credential listed
insert-secret_of db db' id name type_name username secret_enc other now shown h full ne =
    let c : Credential = record {
      name = name;
      type_name = type_name;
      username = username;
      secret_enc = secret_enc;
      created_at = now;
    } in
    let after : CredStore = record db { credentials = set db.credentials id c } in
    let stored : get after.credentials id ≡ some c = get-set_self db.credentials id c in
    let (free, q) =
      if_none (is_taken db id name) (some (after, get_credential after id)) (db', shown) h in
    let pair : (after, get_credential after id) ≡ (db', shown) = cc q in
    let table : db'.credentials ≡ after.credentials =
      ap (λ (x : CredStore × Option Listed). x.0.credentials) (sym pair) in
    let read : Option Credential → Option Text = λ o. elim o [
      | none ↦ none
      | some x ↦ if x.secret_enc == [] then none else some x.secret_enc
    ] in
    (
      free,
      ap (λ t. read (get t id)) table
          ∙ ap read stored
          ∙ ap (λ b. if b then none else some secret_enc) (beq_ne secret_enc [] full),
      ap (λ (x : CredStore × Option Listed). x.1) (sym pair) ∙ ap (map_option (listed id)) stored,
      ap (λ t. read (get t other)) table ∙ ap read (get-set_ne db.credentials id other c ne),
    )
