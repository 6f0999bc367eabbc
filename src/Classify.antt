-- ===== src/Classify.antt =====
-- internal/classify/classifier.go: the intent of a request, by a local model. The call of the model
-- is the parameter `generate` and json.Unmarshal is `unmarshal`, both none for an error; a float64
-- is of the type `F`, and `below` tells whether one is below `minConfidence`.
pub mod Cut
pub mod Valid
mod Tests
use rillan.Base.{
  ◌==◌, Bool, true, false, if◌then◌else◌, Option, none, some, List, [], ◌∷◌, ◌++◌, ◌⊎◌, inl, inr,
  any, Str, lit, str_eq, str_mem, trim_space, join_lines,
}
use rillan.Chat.{Json, Message, message_text}
use rillan.Policy.{
  ActionType, Sensitivity, ExecutionMode, IntentClassification, code_diagnosis, code_generation,
  architecture, explanation, refactor, review, general_qa,
}

pub record RawClassification (F : Type 0) : Type 0 where
  pub action_type : Str
  pub sensitivity : Str
  pub requires_context : Bool
  pub execution_mode : Str
  pub confidence : F

pub data ClassifyError : Type 0 where
  unread_input no_response no_object bad_syntax bad_action_type bad_sensitivity bad_execution_mode
        low_confidence :
      ClassifyError

abbrev pub action_types : List ActionType
action_types =
    code_diagnosis ∷ code_generation ∷ architecture ∷ explanation ∷ refactor ∷ review ∷ general_qa
    ∷ []

unfoldable pub valid_action_type : ActionType → Bool
valid_action_type value = str_mem value action_types

-- `validSensitivity`, with the value that a text stands for.
unfoldable pub sensitivity_of : Str → Option Sensitivity
sensitivity_of value =
    if str_eq value (lit "public")
    then some Sensitivity.public
    else if str_eq value (lit "internal")
    then some Sensitivity.internal
    else if str_eq value (lit "proprietary")
    then some Sensitivity.proprietary
    else if str_eq value (lit "trade_secret")
    then some Sensitivity.trade_secret
    else none

-- `validExecutionMode`, likewise.
unfoldable pub execution_mode_of : Str → Option ExecutionMode
execution_mode_of value =
    if str_eq value (lit "direct")
    then some ExecutionMode.direct
    else if str_eq value (lit "plan_first")
    then some ExecutionMode.plan_first
    else none

-- The text from its first opening brace on.
unfoldable pub from_open : Str → Option Str
from_open [] = none
from_open (c ∷ s) = let rest = from_open s in if c == b'{' then some (c ∷ s) else rest

-- The text up to its last closing brace.
unfoldable pub to_close : Str → Option Str
to_close [] = none
to_close (c ∷ s) = elim (to_close s) [
  | some t ↦ some (c ∷ t)
  | none ↦ if c == b'}' then some (c ∷ []) else none
]

-- `response[start:end+1]`: the last closing brace comes after the first opening one exactly if
-- there is one in the text from that on, of which it is then the last.
unfoldable pub object_of : Str → Option Str
unfolding from_open to_close
object_of response = elim (from_open response) [ none ↦ none | some s ↦ to_close s ]

abbrev pub prompt_lines : List Str
prompt_lines =
    lit
      "Classify the following chat request for a local policy engine. Return only JSON with these fields:"
    ∷ lit
        "- action_type: one of code_diagnosis, code_generation, architecture, explanation, refactor, review, general_qa"
    ∷ lit "- sensitivity: one of public, internal, proprietary, trade_secret"
    ∷ lit "- requires_context: boolean"
    ∷ lit "- execution_mode: one of direct, plan_first"
    ∷ lit "- confidence: number from 0 to 1"
    ∷ []
    ∷ lit "Request:"
    ∷ []

unfoldable pub input_lines : Json → List Message → Option (List Str)
input_lines json [] = some []
input_lines json (message ∷ messages) =
    let rest = input_lines json messages in
    elim (message_text json message) [
      | none ↦ none
      | some content ↦ elim rest [
        | none ↦ none
        | some lines ↦ some ((message.role ++ (lit ": " ++ trim_space content)) ∷ lines)
      ]
    ]

unfoldable pub build_input : Json → List Message → Option Str
unfolding input_lines
build_input json messages = elim (input_lines json messages) [
  | none ↦ none
  | some lines ↦ some (trim_space (join_lines lines))
]

module _ {F : Type 0} (unmarshal : Str → Option (RawClassification F)) where
  -- The tests of `parseClassification`, with the confidence.
  unfoldable pub classification_of :
      RawClassification F → ClassifyError ⊎ (IntentClassification × F)
  classification_of payload =
      if valid_action_type (trim_space payload.action_type)
      then elim (sensitivity_of (trim_space payload.sensitivity)) [
        | none ↦ inl ClassifyError.bad_sensitivity
        | some sensitivity ↦ elim (execution_mode_of (trim_space payload.execution_mode)) [
          | none ↦ inl ClassifyError.bad_execution_mode
          | some mode ↦ inr (
            record {
              action = trim_space payload.action_type;
              sensitivity = sensitivity;
              requires_context = payload.requires_context;
              execution_mode = mode;
            },
            payload.confidence,
          )
        ]
      ]
      else inl ClassifyError.bad_action_type

  unfoldable pub parse_classification : Str → ClassifyError ⊎ (IntentClassification × F)
  parse_classification response = elim (object_of response) [
    | none ↦ inl ClassifyError.no_object
    | some object ↦ elim (unmarshal object) [
      | none ↦ inl ClassifyError.bad_syntax
      | some payload ↦ classification_of payload
    ]
  ]

  module _ (json : Json) (generate : Str → Str → Option Str) (below : F → Bool) where
    unfoldable pub classify : Str → List Message → ClassifyError ⊎ IntentClassification
    classify model messages = elim (build_input json messages) [
      | none ↦ inl ClassifyError.unread_input
      | some text ↦ elim (generate model (join_lines (prompt_lines ++ (text ∷ [])))) [
        | none ↦ inl ClassifyError.no_response
        | some response ↦ elim (parse_classification response) [
          | inl err ↦ inl err
          | inr (classification, confidence) ↦
              if below confidence then inl ClassifyError.low_confidence else inr classification
        ]
      ]
    ]

    -- The `Classify` of a `SafeClassifier` with this classifier, which passes over its errors.
    unfoldable pub safe_classify : Str → List Message → Option IntentClassification
    safe_classify model messages = elim (classify model messages) [
      | inl err ↦ none
      | inr classification ↦ some classification
    ]
