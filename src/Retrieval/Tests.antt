-- ===== src/Retrieval/Tests.antt =====
-- Settings, contexts and summaries at concrete values; a score is a number, and a hash is eight
-- zeros.
use rillan.Base.{
  ℕ, ◌+◌, ◌≤◌, ◌<◌, max, ◌≡◌, ◌↔◌, ◌⊎◌, refl, pos, negsuc, pos_part, ltb_ℤ, true, false, none, some,
  List, [], ◌∷◌, inr, ◌++◌, map, Str, lit, arith, All, length, take, join, trim_space,
}
use rillan.Base.Decimal.{decimal, decimal_ℤ}
use rillan.Config.{RetrievalConfig}
use rillan.Retrieval.{
  Settings, RetrievalOptions, SearchResult, DebugMetadata, DebugSummary, resolve_settings,
}
use rillan.Retrieval.Limits.{resolve_settings-positive}
use rillan.Retrieval.Context.{
  compile_context, compile_from, fit_section, trim_section, reference_of, source_of,
}
use rillan.Retrieval.Context.Bounds.{compile_context-fits}
use rillan.Retrieval.Debug.{
  bound_source_ref, format_source_ref_bounded, refs_from, summarize_debug_bounded,
}
use rillan.Retrieval.Debug.Bounds.{bound_source_ref-bounded, summarize_debug-bounded}

compiling : Unit {0}
unfolding resolve_settings compile_context compile_from fit_section trim_section reference_of
    decimal decimal_ℤ lit trim_space bound_source_ref format_source_ref_bounded refs_from
    summarize_debug_bounded join
compiling = tt

abbrev result_at : Str → Str → SearchResult ℕ
result_at path content = record {
  chunk_id = path;
  document_path = path;
  ordinal = pos 0;
  start_line = pos 1;
  end_line = pos 2;
  content = content;
  score = 9;
}

abbrev two_results : List (SearchResult ℕ)
two_results = result_at (lit "a") (lit "text") ∷ result_at (lit "b") (lit "more text") ∷ []

whole_text :
    (compile_context (result_at (lit "a") (lit "text") ∷ []) (pos 100)).text
    ≡ lit "[source 1] a:1-2" ++ (b'\n' ∷ lit "text")
unfolding compiling
whole_text = refl

-- A first result that fills the limit leaves the second one out, and nothing says so.
filled : (compile_context two_results (pos 21)).truncated ≡ false
unfolding compiling
filled = refl

compile_context-fits_example :
    let c = compile_context two_results (pos 50) in
    (length c.text ≤ 50)
    × ((k : ℕ) × (c.sources ≡ map source_of (take k two_results)))
    × (ltb_ℤ (pos 50) (pos 1) ≡ false
        → c.truncated ≡ false
        → (c.sources ≡ map source_of two_results) ⊎ (length c.text ≡ 50))
compile_context-fits_example = compile_context-fits two_results (pos 50)

abbrev defaults : RetrievalConfig
defaults = record { enabled = false; top_k = pos 4; max_context_chars = pos 6000 }

abbrev override : RetrievalOptions
override = record { enabled = some true; top_k = some (pos 2); max_context_chars = none }

resolved :
    (settings : Settings) × (resolve_settings defaults (some override) ≡ inr settings)
    × (settings.top_k ≡ pos 2)
unfolding compiling
resolved = (_, refl, refl)

settings_positive :
    (ltb_ℤ resolved.0.top_k (pos 1) ≡ false) × (ltb_ℤ resolved.0.max_context_chars (pos 1) ≡ false)
settings_positive =
    resolve_settings-positive defaults (some override) resolved.0 refl refl resolved.1

abbrev short_hash : Str → Str
short_hash value = lit "00000000"

short : (value : Str) → length (short_hash value) ≡ 8
unfolding lit
short value = refl

-- A bound with room for the hash mark, but not for the lines beside it.
panics : bound_source_ref short_hash (lit "internal/app/app.go") (lit ":1-20") 12 ≡ none
unfolding compiling
panics = refl

ref_bounded :
    let ref = bound_source_ref short_hash (lit "internal/app/app.go") (lit ":1-20") 20 in
    ((r : Str) → ref ≡ some r → length r ≤ 20)
    × ((ref ≡ none) ↔ (
        (20 < length (lit "internal/app/app.go") + length (lit ":1-20"))
        × (9 < 20)
        × (20 ≤ length (lit ":1-20") + 10)))
ref_bounded =
    bound_source_ref-bounded short_hash short (lit "internal/app/app.go") (lit ":1-20") 20
      (omega arith)

abbrev metadata : DebugMetadata ℕ
metadata = record {
  enabled = true;
  query = lit "q";
  settings = record { enabled = true; top_k = pos 2; max_context_chars = pos 50 };
  compiled = record { text = []; sources = map source_of two_results; truncated = false };
}

summarized :
    (summary : DebugSummary) × (summarize_debug_bounded short_hash metadata
        (pos 1)
        (negsuc 4)
        (pos 9)
      ≡ some summary)
unfolding compiling
summarized = (_, refl)

summary_bounded :
    let summary = summarized.0 in
    (summary.source_count ≡ pos 2)
    × (length summary.source_refs ≤ 1)
    × All (λ ref. length ref ≤ max 1 (pos_part (negsuc 4))) summary.source_refs
    × (length (join summary.source_refs (lit ", ")) ≤ max 1 (pos_part (pos 9)))
unfolding lit
summary_bounded =
    summarize_debug-bounded short_hash short metadata (pos 1) (negsuc 4) (pos 9) summarized.0
      (lit ", ") refl summarized.1
