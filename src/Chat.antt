-- ===== src/Chat.antt =====
-- internal/openai/types.go and internal/chat/request.go: chat requests, and their JSON objects.
-- encoding/json is the parameter `Json`.
pub mod Encode
pub mod Validate
pub mod Features
use rillan.Base.{Bool, Option, none, some, List, ◌≢◌, ◌⊎◌, Str, lookup, is_none, not}
use rillan.Retrieval.{DebugMetadata, RetrievalOptions}

-- `extra` is the map of the fields that are not read, as raw JSON.
pub record Message : Type 0 where
  pub role : Str
  pub content : Str
  pub extra : List (Str × Str)

-- An `interface{}` in the metadata: what the retrieval pipeline leaves there, or anything else.
pub data Metadata (F : Type 0) : Type 0 where
  debug : DebugMetadata F → Metadata F
  other : Metadata F

pub record ChatCompletionRequest (F : Type 0) : Type 0 where
  pub model : Str
  pub messages : List Message
  pub stream : Bool
  pub retrieval : Option RetrievalOptions
  pub metadata : List (Metadata F)
  pub extra : List (Str × Str)

-- The fields that `UnmarshalJSON` reads through `requestAlias`.
pub record RequestAlias : Type 0 where
  pub model : Str
  pub messages : List Message
  pub stream : Bool
  pub retrieval : Option RetrievalOptions

-- encoding/json: what can fail gives none. `strings_of` reads a JSON array into raw values,
-- `part_types` an array of objects into their fields `type`, `alias_of` an object into a
-- `requestAlias`, and `object_of` one into a map. `compact` checks and compacts what a
-- `MarshalJSON` returns, and `marshal_list` writes a slice, given the encoding of its elements.
pub record Json : Type 0 where
  pub is_valid : Str → Bool
  pub string_of : Str → Option Str
  pub strings_of : Str → Option (List Str)
  pub part_types : Str → Option (List Str)
  pub alias_of : Str → Option RequestAlias
  pub object_of : Str → Option (List (Str × Str))
  pub quote : Str → Str
  pub options_text : RetrievalOptions → Str
  pub compact : Str → Option Str
  pub marshal_list : (Message → Option Str) → List Message → Option Str

-- `Message.hasField`
unfoldable pub has_field : Message → Str → Bool
has_field m name = not (is_none (lookup name m.extra))

-- chat.MessageText
unfoldable pub message_text : Json → Message → Option Str
message_text json message = json.string_of message.content
