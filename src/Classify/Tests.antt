-- ===== src/Classify/Tests.antt =====
-- An answer with text around its object.
use rillan.Base.{
  ◌≡◌, refl, inl, Bool, true, false, Option, none, some, List, [], ◌∷◌, Str, lit, str_eq, str_mem,
  trim_space, join_lines,
}
use rillan.Chat.{Json, Message, message_text}
use rillan.Policy.{IntentClassification, Sensitivity, ExecutionMode, review}
use rillan.Classify.{
  RawClassification, ClassifyError, valid_action_type, sensitivity_of, execution_mode_of, from_open,
  to_close, object_of, input_lines, build_input, classification_of, parse_classification, classify,
  safe_classify,
}
use rillan.Classify.Valid.{IsClassified, safe_classify-IsClassified}

abbrev json : Json
json = record {
  is_valid = λ s. true;
  string_of = λ s. some s;
  strings_of = λ s. none;
  part_types = λ s. none;
  alias_of = λ s. none;
  object_of = λ s. none;
  quote = λ s. s;
  options_text = λ o. [];
  compact = λ s. some s;
  marshal_list = λ f ms. none;
}

-- Every object is read as a review of proprietary code.
abbrev unmarshal : Str → Option (RawClassification Bool)
unmarshal s = some (record {
  action_type = lit " review";
  sensitivity = lit "proprietary";
  requires_context = true;
  execution_mode = lit "plan_first ";
  confidence = true;
})

abbrev generate : Str → Str → Option Str
generate model prompt = some (lit "Sure: {a {b} c} done")

-- A confidence is whether it is enough.
abbrev below : Bool → Bool
below confident = elim confident [ true ↦ false | false ↦ true ]

abbrev messages : List Message
messages = record { role = lit "user"; content = lit "look"; extra = [] } ∷ []

abbrev reviewed : IntentClassification
reviewed = record {
  action = review;
  sensitivity = Sensitivity.proprietary;
  requires_context = true;
  execution_mode = ExecutionMode.plan_first;
}

running : Unit {0}
unfolding safe_classify classify parse_classification classification_of build_input input_lines
    message_text object_of from_open to_close valid_action_type sensitivity_of execution_mode_of
    str_eq str_mem trim_space join_lines lit
running = tt

cut : object_of (lit "Sure: {a {b} c} done") ≡ some (lit "{a {b} c}")
unfolding running
cut = refl

-- A closing brace before the opening one is no object.
reversed : parse_classification unmarshal (lit "} {") ≡ inl ClassifyError.no_object
unfolding running
reversed = refl

classified : safe_classify unmarshal json generate below (lit "m") messages ≡ some reviewed
unfolding running
classified = refl

safe_classify-IsClassified_example :
    IsClassified unmarshal json generate below (lit "m") messages reviewed
safe_classify-IsClassified_example =
    safe_classify-IsClassified unmarshal json generate below (lit "m") messages reviewed classified
