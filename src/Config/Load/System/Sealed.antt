-- ===== src/Config/Load/System/Sealed.antt =====
-- Where the policy of a system configuration comes from.
use rillan.Base.{
  Sum-cases, ◌≡◌, ◌≤◌, refl, subst, inl, inr, ◌==◌, ltb, fail_if, or_error, or_none, >>=-eq-inr,
  fail_if-eq-inr, or_error-eq-inr, or_none-map-eq-inr, ReadFile, Bool, false, not, none, some, List,
  [], ◌∷◌, find, length, take, drop, All, Str, lit, str_mem, trim_space, arith,
}
use mathlib.Core.Option
use rillan.Config.Load.System.{
  Sealing, SystemError, default_system_config, apply_system_derived_defaults, plaintext_keys,
  reject_plaintext_system_config, decrypt_system_policy_payload, system_secret,
  decrypt_system_policy, load_system,
}
use rillan.Config.Types.{SystemConfig, SystemPolicy}
use rillan.Config.Validate.{validate_system}
use rillan.Secrets.{Keyring}

find-none-All :
    {A : Type 0} (p : A → Bool) (xs : List A) → find p xs ≡ none → All (λ x. p x ≡ false) xs
find-none-All p [] e = tt
find-none-All p (x ∷ xs) e =
    let no : p x ≡ false = ground (arith, e) in (no, find-none-All p xs (ground (arith, e, no)))

module _ (sealing : Sealing) where
  -- What a sealed payload opens to under a key.
  pub record Opens (key payload : Str) (policy : SystemPolicy) : Type 0 where
    pub nonce : sealing.nonce_size ≤ length payload
    pub opened :
        (plaintext : Str) × (sealing.gcm_open key
            (take sealing.nonce_size payload)
            (drop sealing.nonce_size payload)
          ≡ some plaintext)
        × (sealing.unmarshal plaintext ≡ some policy)

  payload-Opens :
      (payload key : Str) (policy : SystemPolicy)
      → decrypt_system_policy_payload sealing payload key ≡ inr policy
      → Opens key payload policy
  unfolding decrypt_system_policy_payload
  payload-Opens payload key policy e =
      let (u, long, e1) =
        >>=-eq-inr (fail_if (ltb (length payload) sealing.nonce_size) SystemError.short_payload) _
          e in
      let (plaintext, opened, e2) =
        >>=-eq-inr
          (or_error SystemError.unsealed (
            sealing.gcm_open key (take sealing.nonce_size payload)
              (drop sealing.nonce_size payload)))
          _ e1 in
      record {
        nonce = ground (arith, fail_if-eq-inr _ _ long);
        opened = (plaintext, or_error-eq-inr _ _ opened, or_error-eq-inr _ _ e2);
      }

  module _ {S : Type 0} (ring : Keyring S) (s : S) where
    -- The policy of a configuration is what the key in the keyring opens of its payload.
    pub record IsUnlocked (cfg : SystemConfig) : Type 0 where
      pub secret : Str
      pub key : Str
      pub payload : Str
      pub held :
          ring.get cfg.encryption.keyring_service cfg.encryption.keyring_account s ≡ inr secret
      pub decoded_key : (sealing.decode_hex (trim_space secret) ≡ some key) × (length key ≡ 32)
      pub decoded_payload : sealing.decode_base64 (trim_space cfg.encrypted_payload) ≡ some payload
      pub opens : Opens key payload cfg.policy

    system_secret-eq-inr :
        (cfg : SystemConfig) (secret : Str)
        → system_secret sealing ring s cfg ≡ inr secret
        → ring.get cfg.encryption.keyring_service cfg.encryption.keyring_account s ≡ inr secret
    system_secret-eq-inr cfg secret e =
        elim (Sum-cases
          (ring.get cfg.encryption.keyring_service cfg.encryption.keyring_account s)) [
            | inl (err, failed) ↦ absurd (ground (arith, e, failed))
            | inr (held, got) ↦ ground (arith, e, got)
          ]

    decrypt-IsUnlocked :
        (cfg out : SystemConfig)
        → decrypt_system_policy sealing ring s cfg ≡ inr out
        → (out ≡ record (cfg) { policy = out.policy }) × IsUnlocked out
    unfolding decrypt_system_policy
    decrypt-IsUnlocked cfg out e =
        let (secret, held, e1) = >>=-eq-inr (system_secret sealing ring s cfg) _ e in
        let (key, hex, e2) =
          >>=-eq-inr (or_error SystemError.bad_secret (sealing.decode_hex (trim_space secret))) _
            e1 in
        let (u, long, e3) =
          >>=-eq-inr (fail_if (not (length key == 32)) SystemError.key_length) _ e2 in
        let (payload, base64, e4) =
          >>=-eq-inr
            (or_error SystemError.bad_payload
              (sealing.decode_base64 (trim_space cfg.encrypted_payload)))
            _ e3 in
        let (policy, decrypted, e5) =
          >>=-eq-inr (decrypt_system_policy_payload sealing payload key) _ e4 in
        let whole : record (cfg) { policy = policy } ≡ out = (cc) in
        subst (λ o. (o ≡ record (cfg) { policy = o.policy }) × IsUnlocked o) whole
          (
            refl,
            record {
              secret = secret;
              key = key;
              payload = payload;
              held = system_secret-eq-inr cfg secret held;
              decoded_key = (or_error-eq-inr _ _ hex, ground (arith, fail_if-eq-inr _ _ long));
              decoded_payload = or_error-eq-inr _ _ base64;
              opens = payload-Opens payload key policy decrypted;
            },
          )

    plaintext-rejected :
        (bytes : Str) (u : Unit {0})
        → reject_plaintext_system_config sealing bytes ≡ inr u
        → (keys : List Str) × (sealing.envelope bytes ≡ some keys)
          × All (λ key. str_mem key keys ≡ false) (lit "identity" ∷ lit "rules" ∷ lit "policy" ∷ [])
    unfolding reject_plaintext_system_config
    plaintext-rejected bytes u e =
        let (keys, read, e1) =
          >>=-eq-inr (or_error SystemError.parse_envelope (sealing.envelope bytes)) _ e in
        (
          keys,
          or_error-eq-inr _ _ read,
          find-none-All (λ key. str_mem key keys) plaintext_keys
              (or_none-map-eq-inr SystemError.plaintext _ e1),
        )

    -- What a configuration is that is loaded from some bytes.
    pub record IsSealed (bytes : Str) (cfg : SystemConfig) : Type 0 where
      pub plain :
          (keys : List Str) × (sealing.envelope bytes ≡ some keys)
          × All (λ key. str_mem key keys ≡ false) (lit "identity" ∷ lit "rules" ∷ lit "policy" ∷ [])
      pub derived :
          (decoded : SystemConfig) × (sealing.decode bytes default_system_config ≡ some decoded)
          × (validate_system (apply_system_derived_defaults decoded) ≡ none)
          × (cfg ≡ record (apply_system_derived_defaults decoded) { policy = cfg.policy })
      pub unlocked : IsUnlocked cfg

    -- A system configuration that is loaded comes from a file without a policy in plain text, which
    -- is valid with its defaults; its policy is what the secret in the keyring under the service and
    -- the account of the file, decoded to a key of 32 bytes, opens of the decoded payload.
    pub load_system-IsSealed :
        (file : ReadFile Str) (cfg : SystemConfig)
        → load_system sealing ring s file ≡ inr cfg
        → (bytes : Str) × (file ≡ ReadFile.content bytes) × IsSealed bytes cfg
    unfolding load_system
    load_system-IsSealed ReadFile.absent cfg e = absurd (cc)
    load_system-IsSealed ReadFile.unreadable cfg e = absurd (cc)
    load_system-IsSealed (ReadFile.content bytes) cfg e =
        let (u, plain, e1) = >>=-eq-inr (reject_plaintext_system_config sealing bytes) _ e in
        let (decoded, parsed, e2) =
          >>=-eq-inr
            (or_error SystemError.parse_system (sealing.decode bytes default_system_config)) _ e1 in
        let (v, valid, e3) =
          >>=-eq-inr
            (or_none (
              Option.map SystemError.invalid_system
                (validate_system (apply_system_derived_defaults decoded))))
            _ e2 in
        let (same, unlocked) = decrypt-IsUnlocked (apply_system_derived_defaults decoded) cfg e3 in
        (
          bytes,
          refl,
          record {
            plain = plaintext-rejected bytes u plain;
            derived = (
              decoded,
              or_error-eq-inr _ _ parsed,
              or_none-map-eq-inr SystemError.invalid_system _ valid,
              same,
            );
            unlocked = unlocked;
          },
        )
