-- ===== src/Chat/Features.antt =====
-- internal/openai/request_features.go: the capabilities that a request needs of a provider.
use rillan.Base.{
  Bool, false, not, ◌&&◌, ◌||◌, ◌==◌, if◌then◌else◌, Option, none, some, List, [], ◌∷◌, ◌++◌,
  is_empty, any, Str, lit, str_eq, lookup, trim_space, normalize_string,
}
use rillan.Chat.{Message, ChatCompletionRequest, Json}

abbrev pub tool_calling : Str
tool_calling = lit "tool_calling"

abbrev pub multimodal : Str
multimodal = lit "multimodal"

module _ (json : Json) where
  -- Whether the field `tools` lists any.
  unfoldable pub lists_tools : Option Str → Bool
  lists_tools none = false
  lists_tools (some raw) = elim (json.strings_of raw) [
    | none ↦ false
    | some tools ↦ not (is_empty tools)
  ]

  -- Whether the field `tool_choice` asks for one: a text but `none`, or anything but null.
  unfoldable pub chooses_tool : Option Str → Bool
  chooses_tool none = false
  chooses_tool (some raw) = elim (json.string_of raw) [
    | some choice ↦
        not (is_empty (trim_space choice)) && not (str_eq (trim_space choice) (lit "none"))
    | none ↦ not (is_empty (trim_space raw)) && not (str_eq (trim_space raw) (lit "null"))
  ]

  unfoldable pub decode_content_parts : Str → Option (List Str)
  decode_content_parts raw = elim (trim_space raw) [
    | [] ↦ none
    | c ∷ rest ↦ if c == b'[' then json.part_types (c ∷ rest) else none
  ]

  -- `normalizePartType` is `normalize_string`.
  unfoldable pub message_uses_multimodal : Message → Bool
  unfolding decode_content_parts
  message_uses_multimodal message = elim (decode_content_parts message.content) [
    | none ↦ false
    | some parts ↦ any (λ part. not (str_eq (normalize_string part) (lit "text"))) parts
  ]

  module _ {F : Type 0} where
    unfoldable pub request_uses_tools : ChatCompletionRequest F → Bool
    unfolding lists_tools chooses_tool
    request_uses_tools req =
        lists_tools (lookup (lit "tools") req.extra)
        || chooses_tool (lookup (lit "tool_choice") req.extra)

    unfoldable pub request_uses_multimodal : ChatCompletionRequest F → Bool
    unfolding message_uses_multimodal
    request_uses_multimodal req = any message_uses_multimodal req.messages

    -- The set of those used, sorted.
    unfoldable pub required_capabilities : ChatCompletionRequest F → List Str
    unfolding request_uses_tools request_uses_multimodal
    required_capabilities req =
        (if request_uses_multimodal req then multimodal ∷ [] else [])
        ++ (if request_uses_tools req then tool_calling ∷ [] else [])
