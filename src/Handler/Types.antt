-- ===== src/Handler/Types.antt =====
-- The handler's state, the route it selects, and what it records. Handler and snapshot have a
-- provider, as the daemon builds them. The audit event is internal/audit/types.go.
use rillan.Base.{
  ℕ, Bool, true, false, if◌then◌else◌, Option, none, some, List, [], ◌⊎◌, Str, lit, is_empty,
}
use rillan.Config.{ProjectConfig, SystemConfig}
use rillan.Policy.{Verdict, DecisionSource, IntentClassification}
use rillan.Policy.Scanner.{Rule}
use rillan.Providers.{Provider, Host}
use rillan.Retrieval.Prepare.{Pipeline, PrepareError, Scores}
use rillan.Routing.Types.{local, remote, Candidate, Catalog, Decision}
use rillan.Routing.Status.{StatusCatalog}
use rillan.Chat.{ChatCompletionRequest, Json}
use rillan.Chat.Validate.{ValidateError}
use rillan.Retrieval.{SettingsError}
use rillan.Handler.Proxy.{Header, Body, Client, CopyError}

-- `Provider.Name`, client by client.
unfoldable pub provider_name : Provider → Str
provider_name (Provider.stdio command) = lit "stdio"
provider_name (Provider.openai settings) = lit "openai"
provider_name (Provider.anthropic settings) = lit "anthropic"
provider_name (Provider.ollama url) = lit "ollama"

-- The runtime that serves a request: the handler's, or that of the snapshot. An error of the
-- classifier is only logged.
pub record ChatRuntime (E : Type 0) (F : Type 0) : Type 0 where
  pub provider : Provider
  pub provider_host : Option Host
  pub pipeline : Option (Pipeline E F)
  pub project : ProjectConfig
  pub system : Option SystemConfig
  pub classifier : Option (ChatCompletionRequest F → Option IntentClassification)
  pub route_catalog : Catalog
  pub route_status : StatusCatalog

-- The handler's fields that a request reads, the evaluator being that of the policy.
pub record ChatCompletionsHandler (E : Type 0) (F : Type 0) : Type 0 where
  pub own : ChatRuntime E F
  pub snapshot : Option (ChatRuntime E F)
  pub rules : List Rule

unfoldable pub current_runtime :
    {E : Type 0} {F : Type 0} → ChatCompletionsHandler E F → ChatRuntime E F
current_runtime h = elim h.snapshot [ none ↦ h.own | some runtime ↦ runtime ]

-- `chatRouteSelection`
pub record Selection : Type 0 where
  pub provider : Option Provider
  pub provider_id : Str
  pub candidate : Option Candidate
  pub decision : Option Decision

unfoldable pub provider_key : Selection → Str
unfolding provider_name
provider_key s =
    if is_empty s.provider_id
    then elim s.provider [ none ↦ [] | some p ↦ provider_name p ]
    else s.provider_id

unfoldable pub is_local : Selection → Bool
is_local s = elim s.candidate [
  | none ↦ false
  | some c ↦ elim c.location [ local ↦ true | remote ↦ false ]
]

unfoldable pub is_remote : Selection → Bool
is_remote s = elim s.candidate [
  | none ↦ true
  | some c ↦ elim c.location [ local ↦ false | remote ↦ true ]
]

pub data EventType : Type 0 where
  remote_egress remote_deny : EventType

-- The errors of which an event keeps the text: that of the provider, and that of the copy.
pub data EventError : Type 0 where
  send : Str → EventError
  copy : CopyError → EventError

pub record Event : Type 0 where
  pub type : EventType
  pub request_id : Str
  pub provider : Str
  pub model : Str
  pub verdict : Verdict
  pub reason : Str
  pub route_source : DecisionSource
  pub outbound_sha256 : Str
  pub source_refs : List Str
  pub response_status : ℕ
  pub response_sha256 : Str
  pub error : Option EventError

-- What the metrics registry is told.
pub data Metric : Type 0 where
  retrieval : ℕ → Bool → Metric
  provider_request : (key result : Str) → (status : ℕ) → Metric

-- chat.ProviderRequest, with the provider that it is sent to.
pub record Sent (F : Type 0) : Type 0 where
  pub selection : Selection
  pub provider : Provider
  pub request : ChatCompletionRequest F
  pub raw_body : Str

-- A response of the upstream; `stream_type` says that the content type names an event stream.
pub record Response : Type 0 where
  pub status_code : ℕ
  pub header : Header
  pub stream_type : Bool
  pub body : Body

pub record SendError : Type 0 where
  pub message : Str
  pub is_timeout : Bool

-- The message of an error of the API: a text, or the error of which it is the text.
pub data Detail : Type 0 where
  text : Str → Detail
  validation : ValidateError → Detail
  setting : SettingsError → Detail
  preparation : PrepareError → Detail

-- The answer to the client: an error of the API, the upstream's response as far as it was copied,
-- or nothing, after a panic.
pub data Reply : Type 0 where
  api_error : (status : ℕ) → (type : Str) → (message : Detail) → Reply
  relayed : (status : ℕ) → (written : Str) → Reply
  aborted : Reply

-- The request of the client, and whether its body can be read to the end.
pub record HttpRequest : Type 0 where
  pub method : Str
  pub id : Str
  pub readable : Bool
  pub body : Str

-- What a request has done so far: the headers that are set, the events that were recorded, what
-- the metrics were told, and what was sent upstream.
pub record Exchange (F : Type 0) : Type 0 where
  pub headers : Header
  pub audit : List Event
  pub metrics : List Metric
  pub sent : List (Sent F)

-- What is not the handler's: encoding/json, floats, http.CanonicalHeaderKey, the SHA-256 in
-- hexadecimal digits, the files of the skills, the client's connection, the upstream, and the
-- handler's recorder, if it has one: whether `Record` succeeds for an event after those recorded.
pub record World (F : Type 0) : Type 0 where
  pub json : Json
  pub scores : Scores F
  pub canonical : Str → Str
  pub sha256 : Str → Str
  pub short_hash : Str → Str
  pub read_skill : Str → Option Str
  pub client : Client
  pub recorder : Option (List Event → Event → Bool)
  pub send : Provider → ChatCompletionRequest F → Str → SendError ⊎ Response
