-- ===== src/Chat/Validate.antt =====
-- internal/openai/validate.go: the requests that are accepted. An error names the message by its
-- index.
use rillan.Base.{
  ℕ, suc, Bool, not, ◌||◌, if◌then◌else◌, Option, none, some, List, [], ◌∷◌, is_empty, Str, lit,
  str_eq, trim_space,
}
use rillan.Retrieval.{RetrievalOptions, too_small}
use rillan.Chat.{Message, ChatCompletionRequest, Json, has_field}

pub data ContentError : Type 0 where
  missing invalid null empty : ContentError

pub data ValidateError : Type 0 where
  empty_model no_messages top_k_too_small max_context_chars_too_small : ValidateError
  bad_role : ℕ → ValidateError
  bad_content : ℕ → ContentError → ValidateError

unfoldable pub valid_role : Str → Bool
valid_role role =
    str_eq role (lit "system")
    || (str_eq role (lit "developer")
        || (str_eq role (lit "user")
            || (str_eq role (lit "assistant") || str_eq role (lit "tool"))))

-- What a content that is a JSON string must not be.
unfoldable pub validate_text : Option Str → Option ContentError
validate_text none = none
validate_text (some text) = if is_empty (trim_space text) then some ContentError.empty else none

module _ (json : Json) where
  unfoldable pub validate_message_content : Message → Option ContentError
  unfolding has_field validate_text
  validate_message_content message =
      let content = trim_space message.content in
      if is_empty content
      then if has_field message (lit "tool_calls") then none else some ContentError.missing
      else if not (json.is_valid content)
      then some ContentError.invalid
      else if str_eq content (lit "null")
      then if has_field message (lit "tool_calls") then none else some ContentError.null
      else validate_text (json.string_of content)

  -- The loop over the messages, from the one of index `i` on.
  unfoldable pub validate_messages : ℕ → List Message → Option ValidateError
  unfolding valid_role validate_message_content
  validate_messages i [] = none
  validate_messages i (message ∷ messages) =
      let rest = validate_messages (suc i) messages in
      if not (valid_role message.role)
      then some (ValidateError.bad_role i)
      else elim (validate_message_content message) [
        | some err ↦ some (ValidateError.bad_content i err)
        | none ↦ rest
      ]

  unfoldable pub validate_options : Option RetrievalOptions → Option ValidateError
  validate_options none = none
  validate_options (some options) =
      if too_small options.top_k
      then some ValidateError.top_k_too_small
      else if too_small options.max_context_chars
      then some ValidateError.max_context_chars_too_small
      else none

  unfoldable pub validate_chat_completion_request :
      {F : Type 0} → ChatCompletionRequest F → Option ValidateError
  unfolding validate_messages validate_options
  validate_chat_completion_request req =
      if is_empty (trim_space req.model)
      then some ValidateError.empty_model
      else if is_empty req.messages
      then some ValidateError.no_messages
      else elim (validate_messages 0 req.messages) [
        | some err ↦ some err
        | none ↦ validate_options req.retrieval
      ]
