-- ===== src/Vault/Sealed.antt =====
-- What server/vault.js seals it opens again, in the same run and after a restart.
use home_net_hub.Prelude.{
  ◌≡◌, refl, sym, ap, ◌∙◌, inl, inr, Option, none, some, [], ◌∷◌, ltb, if◌then◌else◌, Option-cases,
  if-elim, length, ◌==◌, nat_eq, string_eq, list_eq, option_eq, pair_eq,
}
use home_net_hub.Text.{Text, trim}
use home_net_hub.Text.Split.{Lacks, split-join}
use home_net_hub.Vault.{
  Cipher, Meta, Vault, locked, unlocked, not_configured, passphrase_too_short, wrong_key,
  not_opened, blob_version, verifier_plaintext, min_passphrase, encrypt_with, decrypt_parts,
  decrypt_with, unlock, reopen, first_unlock, open_with, open_vault, encrypt, decrypt,
}

abbrev some_pair : Meta → Vault → Option Meta × Vault
some_pair meta v = (some meta, v)

module _ (c : Cipher) (no_dot : (s : Text) → Lacks b'.' (c.to_base64 s))
    (base64 : (s : Text) → c.from_base64 (c.to_base64 s) ≡ s)
    (opens : (key iv p : Text)
      → c.unseal key iv (c.seal key iv p).0 (c.seal key iv p).1 ≡ some p) where
  -- What is encrypted under a key decrypts under it: base64 reads back what it prints and has no dot,
  -- and the cipher opens what it sealed.
  pub decrypt_with-encrypt_with :
      (key iv p : Text) → decrypt_with c key (encrypt_with c key iv p) ≡ some p
  unfolding decrypt_with encrypt_with decrypt_parts
  decrypt_with-encrypt_with key iv p =
      let tag = (c.seal key iv p).0 in
      let ct = (c.seal key iv p).1 in
      let parts =
        split-join b'.' blob_version (c.to_base64 iv ∷ c.to_base64 tag ∷ c.to_base64 ct ∷ [])
          ((refl, (refl, tt)), (no_dot iv, (no_dot tag, (no_dot ct, tt)))) in
      ap (decrypt_parts c key) parts
      ∙ ap (λ x. c.unseal key x (c.from_base64 (c.to_base64 tag)) (c.from_base64 (c.to_base64 ct)))
          (base64 iv)
      ∙ ap (λ x. c.unseal key iv x (c.from_base64 (c.to_base64 ct))) (base64 tag)
      ∙ ap (c.unseal key iv tag) (base64 ct)
      ∙ opens key iv p

  reopen-first_unlock :
      (p salt iv key : Text) (meta : Meta)
      → first_unlock c p salt iv ≡ (some meta, unlocked key)
      → reopen c meta p ≡ unlocked key
  unfolding first_unlock reopen unlock
  reopen-first_unlock p salt iv key meta h =
      let first : Option Text → Option Meta × Vault = λ o. elim o [
        | none ↦ (none, locked not_opened)
        | some k ↦ (
          some (record { salt = salt; verifier = encrypt_with c k iv verifier_plaintext }),
          unlocked k,
        )
      ] in
      let again : Option Text → Vault = λ o. elim o [
        | none ↦ locked not_opened
        | some k ↦
            if decrypt_with c k meta.verifier == some verifier_plaintext
            then unlocked k
            else locked wrong_key
      ] in
      elim (Option-cases (c.derive p salt)) [
        | inl n ↦ absurd (cc (ap (λ (x : Option Meta × Vault). x.0) (sym (ap first n) ∙ h)))
        | inr (k, n) ↦
            let made = sym (ap first n) ∙ h in
            let m : record { salt = salt; verifier = encrypt_with c k iv verifier_plaintext }
                ≡ meta =
              cc (ap (λ (x : Option Meta × Vault). x.0) made) in
            let same : k ≡ key = cc (ap (λ (x : Option Meta × Vault). x.1) made) in
            let salts : meta.salt ≡ salt = ap (λ (x : Meta). x.salt) (sym m) in
            let verifiers : decrypt_with c k meta.verifier ≡ some verifier_plaintext =
              ap (λ (x : Meta). decrypt_with c k x.verifier) (sym m)
              ∙ decrypt_with-encrypt_with k iv verifier_plaintext in
            ap (λ s. again (c.derive p s)) salts
            ∙ ap again n
            ∙ ap (λ o. if o == some verifier_plaintext then unlocked k else locked wrong_key)
                verifiers
            ∙ ap unlocked same
      ]

  -- A vault that was opened on a fresh install opens again, after a restart, with the same
  -- passphrase and under the same key, and then decrypts whatever was encrypted before, where
  -- base64 reads back what it prints and has no dot, and the cipher opens what it sealed.
  pub open_vault-restart :
      (p salt iv salt' iv' iv_secret secret key : Text) (meta : Meta)
      → open_vault c (some p) none salt iv ≡ (some meta, unlocked key)
      → (open_vault c (some p) (some meta) salt' iv' ≡ (some meta, unlocked key))
        × ((blob : Text) × (encrypt c (unlocked key) iv_secret secret ≡ some blob)
            × (decrypt c (open_vault c (some p) (some meta) salt' iv').1 blob ≡ some secret))
  unfolding open_vault open_with encrypt decrypt
  open_vault-restart p salt iv salt' iv' iv_secret secret key meta h =
      let O : Type 0 = Option Meta × Vault in
      let shut : O = (some meta, locked not_configured) in
      let brief : O = (some meta, locked passphrase_too_short) in
      let back : O = (some meta, reopen c meta p) in
      let want : O = (some meta, unlocked key) in
      let short = ltb (length p) min_passphrase in
      let again : open_vault c (some p) (some meta) salt' iv' ≡ (some meta, unlocked key) =
        if-elim
          (λ (o : O).
            o ≡ want → (if trim p == [] then shut else (if short then brief else back)) ≡ want)
          (trim p == []) (none, locked not_configured)
          (if short then (none, locked passphrase_too_short) else first_unlock c p salt iv)
          (λ _ e. absurd (cc (ap (λ (x : O). x.0) e)))
          (λ b e.
            if-elim
              (λ (o : O).
                o ≡ want → (if trim p == [] then shut else (if short then brief else back)) ≡ want)
              short (none, locked passphrase_too_short) (first_unlock c p salt iv)
              (λ _ e'. absurd (cc (ap (λ (x : O). x.0) e')))
              (λ long e'.
                ap (λ x. if x then shut else (if short then brief else back)) b
                ∙ ap (λ x. if x then brief else back) long
                ∙ ap (λ (v : Vault). some_pair meta v) (reopen-first_unlock p salt iv key meta e'))
              e)
          h in
      (
        again,
        (
          encrypt_with c key iv_secret secret,
          refl,
          ap (λ (x : O). decrypt c x.1 (encrypt_with c key iv_secret secret)) again
              ∙ decrypt_with-encrypt_with key iv_secret secret,
        ),
      )
