-- ===== src/Retrieval.antt =====
-- internal/retrieval/pipeline.go: the settings of a retrieval, the query, the context compiled
-- from the search results, and the summary for the log. A score is a value of a type `F`, since
-- floats are not computed with here.
pub mod Context
pub mod Debug
mod Limits
pub mod Prepare
mod Tests
use rillan.Base.{
  ℤ, pos, ltb_ℤ, Bool, true, false, if◌then◌else◌, not, Option, none, some, List, [], ◌∷◌, ◌⊎◌, inl,
  inr, Str, lit, is_empty, map, keep, join, str_eq, trim_space,
}
use rillan.Config.{RetrievalConfig}

pub record Settings : Type 0 where
  pub enabled : Bool
  pub top_k : ℤ
  pub max_context_chars : ℤ

-- chat.RetrievalOptions; nil fields are none.
pub record RetrievalOptions : Type 0 where
  pub enabled : Option Bool
  pub top_k : Option ℤ
  pub max_context_chars : Option ℤ

-- index.SearchResult
pub record SearchResult (F : Type 0) : Type 0 where
  pub chunk_id : Str
  pub document_path : Str
  pub ordinal : ℤ
  pub start_line : ℤ
  pub end_line : ℤ
  pub content : Str
  pub score : F

pub record SourceReference (F : Type 0) : Type 0 where
  pub chunk_id : Str
  pub document_path : Str
  pub start_line : ℤ
  pub end_line : ℤ
  pub score : F

pub record CompiledContext (F : Type 0) : Type 0 where
  pub text : Str
  pub sources : List (SourceReference F)
  pub truncated : Bool

pub record DebugMetadata (F : Type 0) : Type 0 where
  pub enabled : Bool
  pub query : Str
  pub settings : Settings
  pub compiled : CompiledContext F

pub record DebugSummary : Type 0 where
  pub active : Bool
  pub source_count : ℤ
  pub top_k : ℤ
  pub truncated : Bool
  pub source_refs : List Str

pub data SettingsError : Type 0 where
  top_k_too_small max_context_chars_too_small : SettingsError

abbrev pub or_default {ℓ} : {A : Type ℓ} → A → Option A → A
or_default a none = a
or_default a (some b) = b

-- An override that is there and below one.
abbrev pub too_small : Option ℤ → Bool
too_small none = false
too_small (some n) = ltb_ℤ n (pos 1)

unfoldable pub resolve_settings :
    RetrievalConfig → Option RetrievalOptions → SettingsError ⊎ Settings
resolve_settings defaults none = inr (record {
  enabled = defaults.enabled;
  top_k = defaults.top_k;
  max_context_chars = defaults.max_context_chars;
})
resolve_settings defaults (some override) =
    if too_small override.top_k
    then inl SettingsError.top_k_too_small
    else if too_small override.max_context_chars
    then inl SettingsError.max_context_chars_too_small
    else inr (record {
      enabled = or_default defaults.enabled override.enabled;
      top_k = or_default defaults.top_k override.top_k;
      max_context_chars = or_default defaults.max_context_chars override.max_context_chars;
    })

-- `message_text` is chat.MessageText, which fails on a content it cannot read.
module _ {Message : Type 0} (role : Message → Str) (message_text : Message → Option Str) where
  unfoldable pub texts_of : List Message → Option (List Str)
  texts_of [] = some []
  texts_of (message ∷ messages) =
      let rest = texts_of messages in
      elim (message_text message) [
        | none ↦ none
        | some text ↦ elim rest [ none ↦ none | some texts ↦ some (trim_space text ∷ texts) ]
      ]

  unfoldable pub build_query : List Message → Option Str
  unfolding texts_of
  build_query messages = elim (texts_of (keep (λ m. str_eq (role m) (lit "user")) messages)) [
    | none ↦ none
    | some [] ↦ elim (texts_of messages) [
      | none ↦ none
      | some parts ↦ some (trim_space (join parts (b'\n' ∷ b'\n' ∷ [])))
    ]
    | some (part ∷ parts) ↦ some (trim_space (join (part ∷ parts) (b'\n' ∷ b'\n' ∷ [])))
  ]
