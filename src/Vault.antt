-- ===== src/Vault.antt =====
-- server/vault.js: the vault that secrets are sealed in. scrypt, AES-256-GCM and base64 are the
-- functions of Cipher; a salt and an initialisation vector are arguments. An answer none is an
-- exception.
pub mod Sealed
mod Examples
use home_net_hub.Prelude.{
  ℕ, zero, suc, ◌+◌, ◌-◌, ◌*◌, ◌/◌, ◌%◌, ◌^◌, ◌≤◌, ◌<◌, min, max, String, ◌≡◌, refl, sym, ap, ◌∙◌,
  subst, ◌≢◌, ◌↔◌, ◌⊎◌, inl, inr, Bool, true, false, not, ◌&&◌, ◌||◌, Option, none, some, List, [],
  ◌∷◌, ◌++◌, map, arith, ltb, leb, nat_beq, if◌then◌else◌, ltb→lt, lt→ltb, leb→le, le→leb,
  not_leb→lt, not_ltb→le, nat_beq_iff, tests, and_true, or_false, Bool-cases, Option-cases, if-elim,
  if_some, map_option, map_option-some, length, take, drop, any, all, select, get_or, is_some, All,
  length-append, length-take, length-drop, length-select, All-append, Eq, ◌==◌, beq_refl, beq_ne,
  beq_true, nat_eq, string_eq, list_eq, option_eq, pair_eq, pair_beq_iff, list_beq_iff,
}
use home_net_hub.Text.{Text, codes, trim}
use home_net_hub.Text.Split.{split, join}

-- `derive` may throw. `seal` gives the tag and the ciphertext; `unseal` throws where the key is
-- wrong or the text was changed.
pub record Cipher : Type 0 where
  pub derive : Text → Text → Option Text
  pub seal : Text → Text → Text → Text × Text
  pub unseal : Text → Text → Text → Text → Option Text
  pub to_base64 : Text → Text
  pub from_base64 : Text → Text

pub record Meta : Type 0 where
  pub salt : Text
  pub verifier : Text

abbrev pub blob_version : Text
blob_version = codes "v1"

abbrev pub verifier_plaintext : Text
verifier_plaintext = codes "homenet-hub vault verifier v1"

abbrev pub min_passphrase : ℕ
min_passphrase = 16

pub data LockReason : Type 0 where
  not_configured passphrase_too_short wrong_key not_opened : LockReason

pub data Vault : Type 0 where
  locked : LockReason → Vault
  unlocked : Text → Vault

module _ (c : Cipher) where
  unfoldable pub encrypt_with : Text → Text → Text → Text
  encrypt_with key iv plaintext =
      let (tag, ct) = c.seal key iv plaintext in
      join b'.' (blob_version ∷ c.to_base64 iv ∷ c.to_base64 tag ∷ c.to_base64 ct ∷ [])

  unfoldable pub decrypt_parts : Text → List Text → Option Text
  decrypt_parts key (v ∷ iv ∷ tag ∷ ct ∷ []) =
      if v == blob_version
      then c.unseal key (c.from_base64 iv) (c.from_base64 tag) (c.from_base64 ct)
      else none
  decrypt_parts key _ = none

  unfoldable pub decrypt_with : Text → Text → Option Text
  decrypt_with key blob = decrypt_parts key (split b'.' blob)

  -- An install that was unlocked before: its verifier must open under the derived key.
  unfoldable pub unlock : Meta → Text → Vault
  unlock meta key =
      if decrypt_with key meta.verifier == some verifier_plaintext
      then unlocked key
      else locked wrong_key

  unfoldable pub reopen : Meta → Text → Vault
  reopen meta passphrase = elim (c.derive passphrase meta.salt) [
    | none ↦ locked not_opened
    | some key ↦ unlock meta key
  ]

  -- The first unlock of an install stores the salt and the verifier.
  unfoldable pub first_unlock : Text → Text → Text → Option Meta × Vault
  first_unlock passphrase salt iv = elim (c.derive passphrase salt) [
    | none ↦ (none, locked not_opened)
    | some key ↦ (
      some (record { salt = salt; verifier = encrypt_with key iv verifier_plaintext }),
      unlocked key,
    )
  ]

  unfoldable pub open_with : Option Meta → Text → Text → Text → Option Meta × Vault
  open_with none passphrase salt iv = first_unlock passphrase salt iv
  open_with (some meta) passphrase salt iv = (some meta, reopen meta passphrase)

  -- openVault: what is stored afterwards, and the vault.
  unfoldable pub open_vault : Option Text → Option Meta → Text → Text → Option Meta × Vault
  open_vault none meta salt iv = (meta, locked not_configured)
  open_vault (some p) meta salt iv =
      if trim p == []
      then (meta, locked not_configured)
      else if ltb (length p) min_passphrase
      then (meta, locked passphrase_too_short)
      else open_with meta p salt iv

  unfoldable pub encrypt : Vault → Text → Text → Option Text
  encrypt (locked r) iv plaintext = none
  encrypt (unlocked key) iv plaintext = some (encrypt_with key iv plaintext)

  unfoldable pub decrypt : Vault → Text → Option Text
  decrypt (locked r) blob = none
  decrypt (unlocked key) blob = decrypt_with key blob
