-- ===== src/Retrieval/Context.antt =====
-- `CompileContext` and `trimSection`: the results in order, each under a reference line, as far as
-- they fit.
pub mod Bounds
use rillan.Base.{
  ℕ, suc, ◌+◌, ◌-◌, ◌==◌, ltb, leb, ℤ, pos_part, ltb_ℤ, pos, Bool, true, false, if◌then◌else◌, not,
  ◌&&◌, ◌||◌, Option, none, some, List, [], ◌∷◌, ◌++◌, Str, lit, is_empty, length, take, trim_space,
}
use rillan.Base.Decimal.{decimal, decimal_ℤ}
use rillan.Retrieval.{SearchResult, SourceReference, CompiledContext}

abbrev pub suffix : Str
suffix = b'\n' ∷ lit "...[truncated]"

-- No text stands for a section that does not fit. The lengths are those of the source, where
-- neither difference is negative.
unfoldable pub trim_section : Str → Str → ℕ → Str
trim_section reference content available =
    let content_limit = available - length reference - 1 in
    if leb available (length reference + 1)
    then []
    else if ltb content_limit 1
    then []
    else if leb (length content) content_limit
    then reference ++ (b'\n' ∷ content)
    else if leb content_limit (length suffix)
    then []
    else reference
      ++ (b'\n' ∷ (trim_space (take (content_limit - length suffix) content) ++ suffix))

abbrev pub separator : Bool → Str
separator first = if first then [] else b'\n' ∷ b'\n' ∷ []

-- The section for a result, and whether it was cut, if some of it fits.
unfoldable pub fit_section : Bool → ℕ → Str → Str → Option (Str × Bool)
unfolding trim_section
fit_section first remaining reference content =
    let section = separator first ++ (reference ++ (b'\n' ∷ content)) in
    let available = if not first && leb 2 remaining then remaining - 2 else remaining in
    let trimmed = trim_section reference content available in
    if leb (length section) remaining
    then some (section, false)
    else if is_empty trimmed
    then none
    else some (separator first ++ trimmed, true)

module _ {F : Type 0} where
  unfoldable pub reference_of : ℕ → SearchResult F → Str
  reference_of i result =
      lit "[source "
      ++ (decimal i
          ++ (lit "] "
              ++ (result.document_path
                  ++ (lit ":"
                      ++ (decimal_ℤ result.start_line ++ (lit "-" ++ decimal_ℤ result.end_line))))))

  abbrev pub source_of : SearchResult F → SourceReference F
  source_of result = record {
    chunk_id = result.chunk_id;
    document_path = result.document_path;
    start_line = result.start_line;
    end_line = result.end_line;
    score = result.score;
  }

  -- The loop of `CompileContext` from result `i` on: the text, the sources, and whether anything
  -- was cut. `first` says that there is no section yet.
  unfoldable pub compile_from :
      ℕ → Bool → ℕ → List (SearchResult F) → Str × List (SourceReference F) × Bool
  unfolding fit_section reference_of
  compile_from i first remaining [] = ([], [], false)
  compile_from i first remaining (result ∷ results) =
      elim (fit_section first remaining (reference_of i result) result.content) [
        | none ↦ ([], [], true)
        | some (section, cut) ↦
            let left = remaining - length section in
            let (text, sources, truncated) = compile_from (suc i) false left results in
            if left == 0
            then (section, source_of result ∷ [], cut)
            else (section ++ text, source_of result ∷ sources, cut || truncated)
      ]

  unfoldable pub compile_context : List (SearchResult F) → ℤ → CompiledContext F
  unfolding compile_from
  compile_context results max_chars =
      let (text, sources, truncated) = compile_from 1 true (pos_part max_chars) results in
      if ltb_ℤ max_chars (pos 1)
      then record { text = []; sources = []; truncated = false }
      else record { text = text; sources = sources; truncated = truncated }
