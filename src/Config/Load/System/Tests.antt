-- ===== src/Config/Load/System/Tests.antt =====
-- A policy that a key of 32 bytes opens, and a file that has one in plain text.
use rillan.Base.{
  ◌≡◌, refl, inl, inr, ReadFile, true, if◌then◌else◌, none, some, [], ◌∷◌, ◌++◌, Str, lit, str_eq,
  str_mem, trim_space, normalize_string,
}
use rillan.Config.Load.System.{
  Sealing, SystemError, default_system_config, apply_system_derived_defaults,
  reject_plaintext_system_config, decrypt_system_policy_payload, decrypt_system_policy, load_system,
}
use rillan.Config.Load.System.Sealed.{IsSealed, load_system-IsSealed}
use rillan.Config.Types.{SystemConfig, SystemPolicy}
use rillan.Config.Validate.{first_error, validate_system}
use rillan.Secrets.{KeyringError, Keyring}

sealing_tests : Unit {0}
unfolding load_system decrypt_system_policy decrypt_system_policy_payload
    reject_plaintext_system_config default_system_config apply_system_derived_defaults
    validate_system first_error str_eq str_mem lit trim_space normalize_string
sealing_tests = tt

abbrev held_key : Str
held_key = lit "0123456789abcdef0123456789abcdef"

abbrev ring : Keyring (Unit {0})
ring = record {
  get = λ service account s.
      if str_eq account (lit "work") then inr (held_key ++ lit " ") else inl KeyringError.missing;
  set = λ service account value s. inr s;
  delete = λ service account s. inr s;
}

abbrev policy : SystemPolicy
policy = record (default_system_config.policy) {
  rules = record (default_system_config.policy.rules) { mask_pii_for_remote = true };
}

-- A cipher that wants its nonce to be twelve letters.
abbrev sealing : Sealing
sealing = record {
  envelope =
      λ bytes. some (if str_eq bytes (lit "open") then lit "version" ∷ lit "rules" ∷ [] else []);
  decode = λ bytes cfg. some (record (cfg) {
    encryption = record (cfg.encryption) { keyring_account = bytes };
    encrypted_payload = lit " aaaaaaaaaaaasealed";
  });
  decode_hex = λ text. some text;
  decode_base64 = λ text. some text;
  nonce_size = 12;
  gcm_open =
      λ key nonce ciphertext. if str_eq nonce (lit "aaaaaaaaaaaa") then some ciphertext else none;
  unmarshal = λ text. if str_eq text (lit "sealed") then some policy else none;
}

abbrev loaded : SystemConfig
loaded = record (default_system_config) {
  encryption = record (default_system_config.encryption) { keyring_account = lit "work" };
  encrypted_payload = lit " aaaaaaaaaaaasealed";
  policy = policy;
}

loading : load_system sealing ring tt (ReadFile.content (lit "work")) ≡ inr loaded
unfolding sealing_tests
loading = refl

plaintext_refused :
    load_system sealing ring tt (ReadFile.content (lit "open"))
    ≡ inl (SystemError.plaintext (lit "rules"))
unfolding sealing_tests
plaintext_refused = refl

no_key :
    load_system sealing ring tt (ReadFile.content (lit "home"))
    ≡ inl (SystemError.keyring KeyringError.missing)
unfolding sealing_tests
no_key = refl

load_system-IsSealed_example :
    (bytes : Str) × (ReadFile.content (lit "work") ≡ ReadFile.content bytes)
    × IsSealed sealing ring tt bytes loaded
load_system-IsSealed_example =
    load_system-IsSealed sealing ring tt (ReadFile.content (lit "work")) loaded loading
