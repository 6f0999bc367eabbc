-- ===== src/Classify/Valid.antt =====
-- What a classification that is given says of the answer of the model.
use rillan.Base.{
  ◌≡◌, sym, ◌∙◌, ap, ◌⊎◌, inl, inr, Bool, true, false, Option, some, List, [], ◌∷◌, ◌++◌, arith,
  Str, str_mem, trim_space, join_lines, Bool-cases, Option-cases, Sum-cases,
}
use rillan.Chat.{Json, Message}
use rillan.Policy.{IntentClassification, Sensitivity, ExecutionMode}
use rillan.Classify.Cut.{IsCut, object_of-IsCut}
use rillan.Classify.{
  RawClassification, ClassifyError, action_types, valid_action_type, sensitivity_of,
  execution_mode_of, object_of, prompt_lines, build_input, classification_of, parse_classification,
  classify, safe_classify,
}

module _ {F : Type 0} (unmarshal : Str → Option (RawClassification F)) where
  -- A classification that is the one of a payload, whose values are among the known ones.
  pub record IsRead (payload : RawClassification F) (c : IntentClassification) : Type 0 where
    pub action : c.action ≡ trim_space payload.action_type
    pub known : str_mem c.action action_types ≡ true
    pub sensitivity : sensitivity_of (trim_space payload.sensitivity) ≡ some c.sensitivity
    pub execution_mode :
        execution_mode_of (trim_space payload.execution_mode) ≡ some c.execution_mode
    pub context : c.requires_context ≡ payload.requires_context

  payload-IsRead :
      (payload : RawClassification F) (c : IntentClassification) (confidence : F) (s : Sensitivity)
      (mode : ExecutionMode)
      → valid_action_type (trim_space payload.action_type) ≡ true
      → sensitivity_of (trim_space payload.sensitivity) ≡ some s
      → execution_mode_of (trim_space payload.execution_mode) ≡ some mode
      → Path
          (ClassifyError ⊎ (IntentClassification × F))
          (inr (
            record {
              action = trim_space payload.action_type;
              sensitivity = s;
              requires_context = payload.requires_context;
              execution_mode = mode;
            },
            payload.confidence,
          ))
          (inr (c, confidence))
      → IsRead payload c × (confidence ≡ payload.confidence)
  unfolding valid_action_type
  payload-IsRead payload c confidence s mode valid known moded e =
      (record { action = cc; known = cc; sensitivity = cc; execution_mode = cc; context = cc }, cc)

  classification_of-IsRead :
      (payload : RawClassification F) (c : IntentClassification) (confidence : F)
      → classification_of unmarshal payload ≡ inr (c, confidence)
      → IsRead payload c × (confidence ≡ payload.confidence)
  unfolding classification_of
  classification_of-IsRead payload c confidence e =
      elim (Bool-cases (valid_action_type (trim_space payload.action_type))) [
        | inr unknown ↦ absurd (ground (arith, e, unknown))
        | inl valid ↦ elim (Option-cases (sensitivity_of (trim_space payload.sensitivity))) [
          | inl unknown ↦ absurd (ground (arith, e, valid, unknown))
          | inr (s, known) ↦
              elim (Option-cases (execution_mode_of (trim_space payload.execution_mode))) [
                | inl unknown ↦ absurd (ground (arith, e, valid, known, unknown))
                | inr (mode, moded) ↦
                    payload-IsRead payload c confidence s mode valid known moded
                      (sym (ground (arith, valid, known, moded)) ∙ e)
              ]
        ]
      ]

  parse_classification_lem :
      (response : Str) (c : IntentClassification) (confidence : F)
      → parse_classification unmarshal response ≡ inr (c, confidence)
      → (object : Str) × (payload : RawClassification F) × IsCut response object
        × (unmarshal object ≡ some payload)
        × IsRead payload c
        × (confidence ≡ payload.confidence)
  unfolding parse_classification
  parse_classification_lem response c confidence e = elim (Option-cases (object_of response)) [
    | inl absent ↦ absurd (ground (arith, e, absent))
    | inr (object, found) ↦ elim (Option-cases (unmarshal object)) [
      | inl failed ↦ absurd (ground (arith, e, found, failed))
      | inr (payload, decoded) ↦
          let valid : classification_of unmarshal payload ≡ inr (c, confidence) =
            ground (arith, e, found, decoded) in
          let (read, same) = classification_of-IsRead payload c confidence valid in
          (object, payload, object_of-IsCut response object found, decoded, read, same)
    ]
  ]

  module _ (json : Json) (generate : Str → Str → Option Str) (below : F → Bool) where
    pub record IsClassified (model : Str) (messages : List Message) (c : IntentClassification)
        : Type 0 where
      pub text : Str
      pub response : Str
      pub object : Str
      pub payload : RawClassification F
      pub asked : build_input json messages ≡ some text
      pub answered : generate model (join_lines (prompt_lines ++ (text ∷ []))) ≡ some response
      pub cut : IsCut response object
      pub decoded : unmarshal object ≡ some payload
      pub confident : below payload.confidence ≡ false
      pub read : IsRead payload c

    classify-IsClassified :
        (model : Str) (messages : List Message) (c : IntentClassification)
        → classify unmarshal json generate below model messages ≡ inr c
        → IsClassified model messages c
    unfolding classify
    classify-IsClassified model messages c e = elim (Option-cases (build_input json messages)) [
      | inl failed ↦ absurd (ground (arith, e, failed))
      | inr (text, asked) ↦
          elim (Option-cases (generate model (join_lines (prompt_lines ++ (text ∷ []))))) [
            | inl failed ↦ absurd (ground (arith, e, asked, failed))
            | inr (response, answered) ↦
                elim (Sum-cases (parse_classification unmarshal response)) [
                  | inl (err, failed) ↦ absurd (ground (arith, e, asked, answered, failed))
                  | inr ((found, confidence), parsed) ↦ elim (Bool-cases (below confidence)) [
                    | inl low ↦ absurd (ground (arith, e, asked, answered, parsed, low))
                    | inr high ↦
                        let same : found ≡ c = ground (arith, e, asked, answered, parsed, high) in
                        let (object, payload, cut, decoded, read, confidence_eq) =
                          parse_classification_lem response c confidence (rw (← same) parsed) in
                        record {
                          text = text;
                          response = response;
                          object = object;
                          payload = payload;
                          asked = asked;
                          answered = answered;
                          cut = cut;
                          decoded = decoded;
                          confident = rw (← confidence_eq) high;
                          read = read;
                        }
                  ]
                ]
          ]
    ]

    -- A classification that is given is read from the answer of the model to the prompt with the
    -- request: from the part of it between its first opening and its last closing brace, which is
    -- decoded to a payload whose confidence is not below the minimum; its action is one of the
    -- seven, its sensitivity one of the four and its mode one of the two, those of the payload.
    pub safe_classify-IsClassified :
        (model : Str) (messages : List Message) (c : IntentClassification)
        → safe_classify unmarshal json generate below model messages ≡ some c
        → IsClassified model messages c
    unfolding safe_classify
    safe_classify-IsClassified model messages c e =
        elim (Sum-cases (classify unmarshal json generate below model messages)) [
          | inl (err, failed) ↦ absurd (ground (arith, e, failed))
          | inr (found, done) ↦
              let same : found ≡ c = ground (arith, e, done) in
              classify-IsClassified model messages c (done ∙ ap inr same)
        ]
