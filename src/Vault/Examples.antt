-- ===== src/Vault/Examples.antt =====
-- server/vault.js with a cipher of its own, and its theorem there.
use home_net_hub.Prelude.{
  ◌+◌, ◌-◌, ◌≡◌, refl, ap, ◌∙◌, none, some, [], ◌∷◌, ◌++◌, arith, if◌then◌else◌, ◌==◌, beq_refl,
  nat_eq, string_eq, list_eq, option_eq, pair_eq,
}
use home_net_hub.Text.{Text, codes, trim, trim_start, is_space}
use home_net_hub.Text.Split.{Lacks}
use home_net_hub.Vault.{
  Cipher, Meta, unlocked, verifier_plaintext, encrypt_with, encrypt, decrypt, first_unlock,
  open_with, open_vault,
}
use home_net_hub.Vault.Sealed.{open_vault-restart}

-- Every character moved past the dot, and back.
abbrev moved : Text → Text
moved [] = []
moved (c ∷ s) = (c + 47) ∷ moved s

abbrev moved_back : Text → Text
moved_back [] = []
moved_back (c ∷ s) = (c - 47) ∷ moved_back s

moved-Lacks : (s : Text) → Lacks b'.' (moved s)
moved-Lacks [] = tt
moved-Lacks (c ∷ s) = (ground arith, moved-Lacks s)

moved_back-moved : (s : Text) → moved_back (moved s) ≡ s
moved_back-moved [] = refl
moved_back-moved (c ∷ s) =
    let same : c + 47 - 47 ≡ c = ground arith in
    ap (λ x. x ∷ moved_back (moved s)) same ∙ ap (λ t. c ∷ t) (moved_back-moved s)

-- The tag is the key.
abbrev toy : Cipher
toy = record {
  derive = λ p salt. some (salt ++ p);
  seal = λ key iv p. (key, p);
  unseal = λ key iv tag ct. if tag == key then some ct else none;
  to_base64 = moved;
  from_base64 = moved_back;
}

toy_opens :
    (key iv p : Text) → toy.unseal key iv (toy.seal key iv p).0 (toy.seal key iv p).1 ≡ some p
toy_opens key iv p = ap (λ b. if b then some p else none) (beq_refl key)

abbrev passphrase : Text
passphrase = codes "sixteen letters!"

abbrev key : Text
key = codes "saltsixteen letters!"

abbrev meta : Meta
meta = record {
  salt = codes "salt";
  verifier = encrypt_with toy key (codes "iv") verifier_plaintext;
}

opened :
    open_vault toy (some passphrase) none (codes "salt") (codes "iv") ≡ (some meta, unlocked key)
unfolding open_vault open_with first_unlock trim trim_start is_space
opened = refl

open_vault-restart_example :
    (open_vault toy (some passphrase) (some meta) (codes "other") (codes "iv2")
      ≡ (some meta, unlocked key))
    × ((blob : Text) × (encrypt toy (unlocked key) (codes "iv3") (codes "hunter2") ≡ some blob)
        × (decrypt toy
              (open_vault toy (some passphrase) (some meta) (codes "other") (codes "iv2")).1
              blob
            ≡ some (codes "hunter2")))
open_vault-restart_example =
    open_vault-restart toy moved-Lacks moved_back-moved toy_opens passphrase (codes "salt")
      (codes "iv") (codes "other") (codes "iv2") (codes "iv3") (codes "hunter2") key meta opened
