-- ===== src/Chat/Encode.antt =====
-- internal/openai/types.go: the JSON object of a request, read and written.
use rillan.Base.{
  Bool, if◌then◌else◌, not, Option, none, some, List, [], ◌∷◌, ◌++◌, map, keep, is_empty, Str, lit,
  str_compare, str_mem, trim_space, join,
}
use rillan.Base.Sort.{sort_func}
use rillan.Chat.{Message, ChatCompletionRequest, Json}

unfoldable pub raw_or_null : Str → Str
raw_or_null value = if is_empty (trim_space value) then lit "null" else value

-- The fields but those named, which are the keys of a map.
unfoldable pub without : List Str → List (Str × Str) → List (Str × Str)
without names fields = keep (λ f. not (str_mem f.0 names)) fields

abbrev pub request_fields : List Str
request_fields = lit "model" ∷ lit "messages" ∷ lit "stream" ∷ lit "retrieval" ∷ []

module _ (json : Json) where
  -- `writeField`, less the comma.
  unfoldable pub field_text : Str × Str → Str
  unfolding raw_or_null
  field_text (name, value) = json.quote name ++ (lit ":" ++ raw_or_null value)

  -- The extra fields follow in the order of their names.
  unfoldable pub marshal_json_object : List (Str × Str) → List (Str × Str) → Str
  unfolding field_text sort_func
  marshal_json_object fields extra =
      let sorted = sort_func (λ f g. str_compare f.0 g.0) extra in
      lit "{" ++ (join (map field_text (fields ++ sorted)) (lit ",") ++ lit "}")

  -- `Message.MarshalJSON`
  unfoldable pub marshal_message : Message → Str
  unfolding marshal_json_object
  marshal_message m =
      marshal_json_object
        ((lit "role", json.quote m.role) ∷ (lit "content", raw_or_null m.content) ∷ []) m.extra

  abbrev stream_field : Bool → List (Str × Str)
  stream_field stream = if stream then (lit "stream", lit "true") ∷ [] else []

  module _ {F : Type 0} where
    abbrev retrieval_field : ChatCompletionRequest F → List (Str × Str)
    retrieval_field r = elim r.retrieval [
      | none ↦ []
      | some options ↦ (lit "retrieval", json.options_text options) ∷ []
    ]

    -- `ChatCompletionRequest.MarshalJSON`
    unfoldable pub marshal_request : ChatCompletionRequest F → Option Str
    unfolding marshal_message
    marshal_request r =
        elim (json.marshal_list (λ m. json.compact (marshal_message m)) r.messages) [
          | none ↦ none
          | some messages ↦ some (
              marshal_json_object
                ((lit "model", json.quote r.model)
                  ∷ (lit "messages", messages)
                  ∷ (stream_field r.stream ++ retrieval_field r))
                r.extra)
        ]

    -- `json.Marshal(request)`, which compacts what the method returns.
    unfoldable pub encode : ChatCompletionRequest F → Option Str
    unfolding marshal_request
    encode r = elim (marshal_request r) [ none ↦ none | some text ↦ json.compact text ]

    -- `ChatCompletionRequest.UnmarshalJSON`
    unfoldable pub decode : Str → Option (ChatCompletionRequest F)
    unfolding without
    decode text = elim (json.alias_of text) [
      | none ↦ none
      | some head ↦ elim (json.object_of text) [
        | none ↦ none
        | some raw ↦ some (record {
          model = head.model;
          messages = head.messages;
          stream = head.stream;
          retrieval = head.retrieval;
          metadata = [];
          extra = without request_fields raw;
        })
      ]
    ]
