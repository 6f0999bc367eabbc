-- ===== src/Runtime/Samples.antt =====
-- A module whose adapter is a command, which the project enables and the system trusts: the samples
-- of the tests of a runtime.
use rillan.Base.{ReadFile, inl, inr, Bool, true, false, Option, none, some, [], ◌∷◌, Str, lit}
use rillan.Config.{ProjectConfig, SystemConfig, LlmProviderConfig, transport_stdio}
use rillan.Config.Samples.{plain_project}
use rillan.Modules.Load.{Listing}
use rillan.Modules.Manifest.{Manifest}
use rillan.Providers.{Provider}
use rillan.Secrets.{KeyringError, Keyring, Codec}

abbrev pub ring : Keyring Unit
ring = record {
  get = λ service account s. inl KeyringError.missing;
  set = λ service account value s. inr s;
  delete = λ service account s. inl KeyringError.missing;
}

abbrev pub json : Codec
json = record { marshal = λ credential. none; unmarshal = λ value. none }

abbrev pub ready : Provider → Option Str
ready client = none

abbrev pub is_abs : Str → Bool
is_abs path = false

abbrev pub join : Str → Str → Str
join root name = lit "/r/run"

abbrev pub sha256 : Str → Str
sha256 bytes = bytes

abbrev pub resolve_path : Str → Option Str
resolve_path root = some root

abbrev pub adapter : LlmProviderConfig
adapter = record {
  id = lit "local";
  preset = [];
  backend = lit "ollama";
  transport = transport_stdio;
  endpoint = [];
  command = lit "./run" ∷ [];
  auth_strategy = [];
  default_model = [];
  model_pins = [];
  capabilities = [];
  credential_ref = [];
}

abbrev pub unmarshal : Str → Option Manifest
unmarshal bytes = some (record {
  id = lit "m ";
  display_name = lit "M";
  version = lit "1";
  entrypoint = lit "run" ∷ [];
  llm_adapters = adapter ∷ [];
  mcp_servers = [];
  lsp_servers = [];
})

abbrev pub listing : Listing
listing =
    Listing.listed
      (record { name = lit "m"; is_dir = true; manifest = ReadFile.content (lit "d") } ∷ [])

abbrev pub project : ProjectConfig
project = record (plain_project) { modules_enabled = lit "m" ∷ [] }

abbrev pub trusting : Bool → SystemConfig
trusting allow_stdio = record {
  version = [];
  encryption = record { method = []; keyring_service = []; keyring_account = [] };
  encrypted_payload = [];
  policy = record {
    identity = record { people = []; employers = []; pii_patterns = []; credential_patterns = [] };
    rules = record {
      mask_pii_for_remote = false;
      strip_employer_references = false;
      force_local_for_trade_secret = false;
      block_remote_on_pci_artifacts = false;
    };
    trusted_modules =
        record {
          repo_root = lit "/r";
          module_id = lit "m";
          manifest_sha256 = lit "d";
          allow_stdio = allow_stdio;
        }
        ∷ [];
  };
}
