-- ===== src/Config/Constants.antt =====
-- internal/config/config.go: the named constants.
use rillan.Base.{ℤ, pos, Str, lit}

abbrev pub schema_version_v2 : ℤ
schema_version_v2 = pos 2

abbrev pub transport_http : Str
transport_http = lit "http"

abbrev pub transport_stdio : Str
transport_stdio = lit "stdio"

abbrev pub provider_openai : Str
provider_openai = lit "openai"

abbrev pub provider_openai_compatible : Str
provider_openai_compatible = lit "openai_compatible"

abbrev pub provider_anthropic : Str
provider_anthropic = lit "anthropic"

abbrev pub provider_ollama : Str
provider_ollama = lit "ollama"

abbrev pub auth_none : Str
auth_none = lit "none"

abbrev pub auth_api_key : Str
auth_api_key = lit "api_key"

abbrev pub auth_browser_oidc : Str
auth_browser_oidc = lit "browser_oidc"

abbrev pub auth_device_oidc : Str
auth_device_oidc = lit "device_oidc"

abbrev pub open_source : Str
open_source = lit "open_source"

abbrev pub internal : Str
internal = lit "internal"

abbrev pub proprietary : Str
proprietary = lit "proprietary"

abbrev pub trade_secret : Str
trade_secret = lit "trade_secret"

abbrev pub prefer_auto : Str
prefer_auto = lit "auto"

abbrev pub prefer_local : Str
prefer_local = lit "prefer_local"

abbrev pub prefer_cloud : Str
prefer_cloud = lit "prefer_cloud"

abbrev pub prefer_local_only : Str
prefer_local_only = lit "local_only"
