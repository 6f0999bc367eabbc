-- ===== src/Config/Load/System.antt =====
-- internal/config/load.go and internal/config/system_crypto.go: the system configuration, whose
-- policy is sealed. The YAML decoder, hex and base64, AES-GCM with its nonce's size and the decoder
-- of the policy are the record `Sealing`; `envelope` gives the keys at the top of the file. A key
-- of 32 bytes makes a cipher, so that aes.NewCipher and cipher.NewGCM do not fail.
pub mod Sealed
mod Tests
use rillan.Base.{
  ℕ, ◌⊎◌, inl, inr, ◌>>=◌, ◌>>◌, ◌==◌, ltb, fail_if, or_error, or_none, ReadFile, Bool, false, not,
  Option, List, [], ◌∷◌, find, length, take, drop, Str, lit, str_mem, trim_space,
}
use mathlib.Core.Option
use rillan.Config.Load.{or_text}
use rillan.Config.Types.{SystemConfig, SystemPolicy}
use rillan.Config.Validate.{ValidationError, keyring_aes_gcm, validate_system}
use rillan.Secrets.{KeyringError, Keyring}

pub record Sealing : Type 0 where
  pub envelope : Str → Option (List Str)
  pub decode : Str → SystemConfig → Option SystemConfig
  pub decode_hex : Str → Option Str
  pub decode_base64 : Str → Option Str
  pub nonce_size : ℕ
  pub gcm_open : (key nonce ciphertext : Str) → Option Str
  pub unmarshal : Str → Option SystemPolicy

pub data SystemError : Type 0 where
  not_found read_system parse_envelope parse_system : SystemError
  plaintext : Str → SystemError
  invalid_system : ValidationError → SystemError
  keyring : KeyringError → SystemError
  bad_secret key_length bad_payload short_payload unsealed bad_policy : SystemError

unfoldable pub default_system_config : SystemConfig
default_system_config = record {
  version = lit "m06";
  encryption = record {
    method = keyring_aes_gcm;
    keyring_service = lit "rillan/system-policy";
    keyring_account = lit "machine-default";
  };
  encrypted_payload = [];
  policy = record {
    identity = record { people = []; employers = []; pii_patterns = []; credential_patterns = [] };
    rules = record {
      mask_pii_for_remote = false;
      strip_employer_references = false;
      force_local_for_trade_secret = false;
      block_remote_on_pci_artifacts = false;
    };
    trusted_modules = [];
  };
}

unfoldable pub apply_system_derived_defaults : SystemConfig → SystemConfig
unfolding default_system_config
apply_system_derived_defaults cfg = record (cfg) {
  version = or_text cfg.version default_system_config.version;
  encryption = record {
    method = or_text cfg.encryption.method default_system_config.encryption.method;
    keyring_service =
        or_text cfg.encryption.keyring_service default_system_config.encryption.keyring_service;
    keyring_account =
        or_text cfg.encryption.keyring_account default_system_config.encryption.keyring_account;
  };
}

abbrev pub plaintext_keys : List Str
plaintext_keys = lit "identity" ∷ lit "rules" ∷ lit "policy" ∷ []

module _ (sealing : Sealing) where
  unfoldable pub reject_plaintext_system_config : Str → SystemError ⊎ Unit {0}
  reject_plaintext_system_config bytes = do
    keys ← or_error SystemError.parse_envelope (sealing.envelope bytes)
    or_none (Option.map SystemError.plaintext (find (λ key. str_mem key keys) plaintext_keys))

  unfoldable pub decrypt_system_policy_payload : (payload key : Str) → SystemError ⊎ SystemPolicy
  decrypt_system_policy_payload payload key = do
    fail_if (ltb (length payload) sealing.nonce_size) SystemError.short_payload
    opened ←
        or_error SystemError.unsealed
          (sealing.gcm_open key (take sealing.nonce_size payload) (drop sealing.nonce_size payload))
    or_error SystemError.bad_policy (sealing.unmarshal opened)

  module _ {S : Type 0} (ring : Keyring S) (s : S) where
    abbrev pub system_secret : SystemConfig → SystemError ⊎ Str
    system_secret cfg =
        elim (ring.get cfg.encryption.keyring_service cfg.encryption.keyring_account s) [
          | inl err ↦ inl (SystemError.keyring err)
          | inr secret ↦ inr secret
        ]

    unfoldable pub decrypt_system_policy : SystemConfig → SystemError ⊎ SystemConfig
    decrypt_system_policy cfg = do
      secret ← system_secret cfg
      key ← or_error SystemError.bad_secret (sealing.decode_hex (trim_space secret))
      fail_if (not (length key == 32)) SystemError.key_length
      payload ←
          or_error SystemError.bad_payload
            (sealing.decode_base64 (trim_space cfg.encrypted_payload))
      policy ← decrypt_system_policy_payload payload key
      inr (record (cfg) { policy = policy })

    unfoldable pub load_system : ReadFile Str → SystemError ⊎ SystemConfig
    unfolding apply_system_derived_defaults default_system_config validate_system
    load_system ReadFile.absent = inl SystemError.not_found
    load_system ReadFile.unreadable = inl SystemError.read_system
    load_system (ReadFile.content bytes) = do
      reject_plaintext_system_config bytes
      decoded ← or_error SystemError.parse_system (sealing.decode bytes default_system_config)
      or_none (
          Option.map SystemError.invalid_system
            (validate_system (apply_system_derived_defaults decoded)))
      decrypt_system_policy (apply_system_derived_defaults decoded)
