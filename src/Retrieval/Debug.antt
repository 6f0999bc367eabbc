-- ===== src/Retrieval/Debug.antt =====
-- `SummarizeDebugBounded` and `boundSourceRef`: the references to the sources for the log, within
-- a bound on each and on all. A slice past the end of its text, which panics, is none.
pub mod Bounds
use rillan.Base.{
  ℕ, zero, suc, ◌+◌, ◌-◌, ltb, leb, max, ℤ, pos, pos_part, Bool, true, false, if◌then◌else◌, ◌||◌,
  Option, none, some, List, [], ◌∷◌, ◌++◌, Str, lit, length, take,
}
use rillan.Base.Decimal.{decimal_ℤ}
use rillan.Retrieval.{SourceReference, DebugMetadata, DebugSummary}

-- `text[:n]`
abbrev pub slice_to : Str → ℕ → Option Str
slice_to text n = if leb n (length text) then some (take n text) else none

-- The length of what stands between two references.
abbrev pub separator_len : Bool → ℕ
separator_len first = if first then 0 else 2

-- `short_hash` is the head of a SHA-256 in hexadecimal digits.
module _ (short_hash : Str → Str) where
  unfoldable pub bound_source_ref : Str → Str → ℕ → Option Str
  bound_source_ref path line_range max_len =
      let value = path ++ line_range in
      let suffix = b'#' ∷ short_hash value in
      let reserved = length line_range + length suffix + 1 in
      let prefix_len = if ltb (max_len - reserved) 1 then 1 else max_len - reserved in
      if ltb max_len 1 || leb (length value) max_len
      then some value
      else if leb max_len reserved
      then slice_to suffix max_len
      else elim (slice_to path prefix_len) [
        | none ↦ none
        | some start ↦ some (start ++ (b'~' ∷ (suffix ++ line_range)))
      ]

  module _ {F : Type 0} where
    unfoldable pub format_source_ref_bounded : SourceReference F → ℕ → Option Str
    unfolding bound_source_ref
    format_source_ref_bounded source max_len =
        bound_source_ref source.document_path
          (lit ":" ++ (decimal_ℤ source.start_line ++ (lit "-" ++ decimal_ℤ source.end_line)))
          max_len

    -- The loop over the sources, while at most `room` references may follow.
    unfoldable pub refs_from :
        ℕ → (room : ℕ) → Bool → (remaining : ℕ) → List (SourceReference F) → Option (List Str)
    unfolding format_source_ref_bounded
    refs_from max_ref_len zero first remaining sources = some []
    refs_from max_ref_len (suc room) first remaining [] = some []
    refs_from max_ref_len (suc room) first remaining (source ∷ sources) =
        elim (format_source_ref_bounded source max_ref_len) [
          | none ↦ none
          | some ref ↦
              let needed = length ref + separator_len first in
              let rest = refs_from max_ref_len room false (remaining - needed) sources in
              if ltb remaining needed
              then some []
              else elim rest [ none ↦ none | some refs ↦ some (ref ∷ refs) ]
        ]

    unfoldable pub summarize_debug_bounded : DebugMetadata F → ℤ → ℤ → ℤ → Option DebugSummary
    unfolding refs_from
    summarize_debug_bounded metadata max_refs max_ref_len max_total_len =
        elim (refs_from (max 1 (pos_part max_ref_len)) (pos_part max_refs) true
          (max 1 (pos_part max_total_len)) metadata.compiled.sources) [
            | none ↦ none
            | some refs ↦ some (record {
              active = metadata.enabled;
              source_count = pos (length metadata.compiled.sources);
              top_k = metadata.settings.top_k;
              truncated = metadata.compiled.truncated;
              source_refs = refs;
            })
          ]

    unfoldable pub summarize_debug : DebugMetadata F → ℤ → Option DebugSummary
    unfolding summarize_debug_bounded
    summarize_debug metadata max_refs = summarize_debug_bounded metadata max_refs (pos 80) (pos 256)
