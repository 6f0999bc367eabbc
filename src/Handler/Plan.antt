-- ===== src/Handler/Plan.antt =====
-- `applyRetrievalPlan`, `applyRetrievalDebugHeaders` and `sourceRefsFromRequest`. A number that
-- the source reaches through a pointer is an option.
pub mod Caps
use rillan.Base.{
  ℕ, ◌+◌, ltb, ltb_ℤ, ℤ, pos, Bool, true, false, not, ◌&&◌, ◌||◌, if◌then◌else◌, Option, none, some,
  List, [], ◌∷◌, ◌++◌, map, is_empty, is_none, Str, lit, join,
}
use rillan.Base.Decimal.{decimal_ℤ}
use rillan.Base.Map.{put}
use rillan.Policy.{RetrievalPlan}
use rillan.Retrieval.{
  or_default, Settings, RetrievalOptions, SourceReference, DebugMetadata, DebugSummary,
}
use rillan.Chat.{Metadata, ChatCompletionRequest}
use rillan.Handler.Proxy.{Header}

-- Whether a cap is set and a setting is above it.
abbrev pub is_above : ℕ → ℤ → Bool
is_above cap setting = ltb 0 cap && ltb_ℤ (pos cap) setting

-- An option that is missing or above the cap, where the setting is above it, becomes the cap.
abbrev pub cap_option : ℕ → ℤ → Option ℤ → Option ℤ
cap_option cap setting none = if is_above cap setting then some (pos cap) else none
cap_option cap setting (some n) =
    if is_above cap setting && ltb_ℤ (pos cap) n then some (pos cap) else some n

abbrev pub no_options : RetrievalOptions
no_options = record { enabled = none; top_k = none; max_context_chars = none }

abbrev pub capped_options : RetrievalPlan → Settings → RetrievalOptions → RetrievalOptions
capped_options plan settings options = record {
  enabled = options.enabled;
  top_k = cap_option plan.top_k_cap settings.top_k options.top_k;
  max_context_chars =
      cap_option plan.max_context_chars settings.max_context_chars options.max_context_chars;
}

module _ {F : Type 0} where
  unfoldable pub apply_retrieval_plan :
      ChatCompletionRequest F → RetrievalPlan → Settings → ChatCompletionRequest F
  apply_retrieval_plan req plan settings =
      let need_override =
        is_above plan.top_k_cap settings.top_k
        || is_above plan.max_context_chars settings.max_context_chars in
      let options = or_default no_options req.retrieval in
      if not plan.apply || not settings.enabled
      then req
      else if not need_override
      then req
      else record req { retrieval = some (capped_options plan settings options) }

  -- `retrieval.ExtractDebugMetadata`
  unfoldable pub extract_debug : List (Metadata F) → Option (DebugMetadata F)
  extract_debug [] = none
  extract_debug (Metadata.debug m ∷ entries) = some m
  extract_debug (Metadata.other ∷ entries) = extract_debug entries

  abbrev source_ref : SourceReference F → Str
  source_ref source =
      source.document_path
      ++ (lit ":" ++ (decimal_ℤ source.start_line ++ (lit "-" ++ decimal_ℤ source.end_line)))

  unfoldable pub source_refs_from_request : ChatCompletionRequest F → List Str
  unfolding extract_debug
  source_refs_from_request req = elim (extract_debug req.metadata) [
    | none ↦ []
    | some metadata ↦ map source_ref metadata.compiled.sources
  ]

-- `strconv.FormatBool`
abbrev format_bool : Bool → Str
format_bool true = lit "true"
format_bool false = lit "false"

-- `http.Header.Set`, of a name in the canonical form.
abbrev set_header : Str → Str → Header → Header
set_header name value headers = put name (value ∷ []) headers

unfoldable pub apply_retrieval_debug_headers : Header → DebugSummary → Header
apply_retrieval_debug_headers headers summary =
    let counted = set_header (lit "X-Rillan-Retrieval-Truncated") (format_bool summary.truncated) (
      set_header (lit "X-Rillan-Retrieval-Top-K") (decimal_ℤ summary.top_k) (
        set_header (lit "X-Rillan-Retrieval-Sources") (decimal_ℤ summary.source_count)
          (set_header (lit "X-Rillan-Retrieval") (lit "active") headers))) in
    if not summary.active
    then headers
    else if is_empty summary.source_refs
    then counted
    else set_header (lit "X-Rillan-Retrieval-Source-Refs") (join summary.source_refs (lit "; "))
        counted
