-- ===== src/Retrieval/Debug/Bounds.antt =====
-- The references in a summary keep to their bounds, and which bounds make the code panic.
use mathlib.Core.Option.{some-injective}
use rillan.Base.{
  subst, pos, ℕ, zero, suc, ◌+◌, ◌-◌, ◌≤◌, ◌<◌, max, ◌≡◌, ◌↔◌, refl, ℤ, pos_part, Bool, true, false,
  ltb, none, some, List, [], ◌∷◌, ◌++◌, Str, arith, All, length, take, length-append, length-take,
  join, Option-cases, Bool-cases, inl, inr,
}
use rillan.Retrieval.{SourceReference, DebugMetadata, DebugSummary}
use rillan.Retrieval.Debug.{
  separator_len, bound_source_ref, format_source_ref_bounded, refs_from, summarize_debug_bounded,
}

-- What the references cost against the total bound.
cost : Bool → List Str → ℕ
cost first [] = 0
cost first (ref ∷ refs) = length ref + separator_len first + cost false refs

length-join :
    (refs : List Str) (sep : Str) → length sep ≡ 2 → length (join refs sep) ≡ cost true refs
unfolding join cost
length-join [] sep h = refl
length-join (ref ∷ []) sep h = omega arith
length-join (ref ∷ other ∷ refs) sep h = omega (
  arith,
  h,
  length-append ref (sep ++ join (other ∷ refs) sep),
  length-append sep (join (other ∷ refs) sep),
  length-join (other ∷ refs) sep h,
)

-- What holds of the references put out.
abbrev IsWithin : ℕ → ℕ → Bool → ℕ → List Str → Type 0
IsWithin max_ref_len room first remaining refs =
    (length refs ≤ room)
    × (cost first refs ≤ remaining)
    × All (λ ref. length ref ≤ max_ref_len) refs

module _ (short_hash : Str → Str) (short : (value : Str) → length (short_hash value) ≡ 8) where
  -- With hashes of eight digits: a bounded reference is within its bound, and the code panics
  -- exactly if the whole reference is longer than the bound, and the bound has room for the hash
  -- mark but not for the lines beside it.
  pub bound_source_ref-bounded :
      (path line_range : Str) (max_len : ℕ)
      → 1 ≤ max_len
      → ((ref : Str)
          → bound_source_ref short_hash path line_range max_len ≡ some ref
          → length ref ≤ max_len)
        × ((bound_source_ref short_hash path line_range max_len ≡ none) ↔ (
            (max_len < length path + length line_range)
            × (9 < max_len)
            × (max_len ≤ length line_range + 10)))
  unfolding bound_source_ref
  bound_source_ref-bounded path line_range max_len h =
      let value = path ++ line_range in
      let suffix = b'#' ∷ short_hash value in
      let start = take (max_len - (length line_range + length suffix + 1)) path in
      let one = take 1 path in
      (
        λ ref e. ground (
          arith,
          h,
          e,
          short value,
          length-append path line_range,
          length-take max_len suffix,
          length-take (max_len - (length line_range + length suffix + 1)) path,
          length-take 1 path,
          length-append start (b'~' ∷ (suffix ++ line_range)),
          length-append one (b'~' ∷ (suffix ++ line_range)),
          length-append suffix line_range,
        ),
        (
          λ e. ground (arith, h, e, short value, length-append path line_range),
          λ e. ground (arith, h, e, short value, length-append path line_range),
        ),
      )

  module _ {F : Type 0} where
    format-bounded :
        (source : SourceReference F) (max_len : ℕ) (ref : Str)
        → 1 ≤ max_len
        → format_source_ref_bounded short_hash source max_len ≡ some ref
        → length ref ≤ max_len
    unfolding format_source_ref_bounded
    format-bounded source max_len ref h e =
        (bound_source_ref-bounded source.document_path _ max_len h).0 ref e

    refs_from-IsWithin :
        (max_ref_len : ℕ) (room : ℕ) (first : Bool) (remaining : ℕ)
        (sources : List (SourceReference F)) (refs : List Str)
        → 1 ≤ max_ref_len
        → refs_from short_hash max_ref_len room first remaining sources ≡ some refs
        → IsWithin max_ref_len room first remaining refs
    unfolding refs_from cost
    refs_from-IsWithin max_ref_len zero first remaining sources refs h e =
        subst (IsWithin max_ref_len zero first remaining) (some-injective _ _ e)
          (omega arith, omega arith, tt)
    refs_from-IsWithin max_ref_len (suc room) first remaining [] refs h e =
        subst (IsWithin max_ref_len (suc room) first remaining) (some-injective _ _ e)
          (omega arith, omega arith, tt)
    refs_from-IsWithin max_ref_len (suc room) first remaining (source ∷ sources) refs h e =
        elim (Option-cases (format_source_ref_bounded short_hash source max_ref_len)) [
          | inl panics ↦ absurd (ground (arith, e, panics))
          | inr (ref, formatted) ↦
              let needed = length ref + separator_len first in
              let rest = refs_from short_hash max_ref_len room false (remaining - needed) sources in
              let bound = format-bounded source max_ref_len ref h formatted in
              elim (Bool-cases (ltb remaining needed)) [
                | inl over ↦
                    let stops : [] ≡ refs = ground (arith, e, formatted, over) in
                    subst (IsWithin max_ref_len (suc room) first remaining) stops
                      (omega arith, omega arith, tt)
                | inr fits ↦ elim (Option-cases rest) [
                  | inl panics ↦ absurd (ground (arith, e, formatted, fits, panics))
                  | inr (others, found) ↦
                      let same : ref ∷ others ≡ refs = ground (arith, e, formatted, fits, found) in
                      let (count, total, each) =
                        refs_from-IsWithin max_ref_len room false (remaining - needed) sources
                          others h found in
                      subst (IsWithin max_ref_len (suc room) first remaining) same
                        (omega (arith, count), ground (arith, total, fits), (bound, each))
                ]
              ]
        ]

    -- With hashes of eight digits: a summary names all sources by number, and of their references
    -- at most `max_refs`, each of at most `max_ref_len` bytes, which joined by a separator of two
    -- bytes have at most `max_total_len` bytes; a bound below its least value counts as that.
    pub summarize_debug-bounded :
        (metadata : DebugMetadata F) (max_refs max_ref_len max_total_len : ℤ)
        (summary : DebugSummary) (separator : Str)
        → length separator ≡ 2
        → summarize_debug_bounded short_hash metadata max_refs max_ref_len max_total_len
          ≡ some summary
        → (summary.source_count ≡ pos (length metadata.compiled.sources))
          × (length summary.source_refs ≤ pos_part max_refs)
          × All (λ ref. length ref ≤ max 1 (pos_part max_ref_len)) summary.source_refs
          × (length (join summary.source_refs separator) ≤ max 1 (pos_part max_total_len))
    unfolding summarize_debug_bounded
    summarize_debug-bounded metadata max_refs max_ref_len max_total_len summary separator two e =
        elim (Option-cases (
          refs_from short_hash (max 1 (pos_part max_ref_len)) (pos_part max_refs) true
            (max 1 (pos_part max_total_len)) metadata.compiled.sources)) [
              | inl panics ↦ absurd (ground (arith, e, panics))
              | inr (refs, found) ↦
                  let (count, total, each) =
                    refs_from-IsWithin (max 1 (pos_part max_ref_len)) (pos_part max_refs) true
                      (max 1 (pos_part max_total_len)) metadata.compiled.sources refs (omega arith)
                      found in
                  let same : refs ≡ summary.source_refs = ground (arith, e, found) in
                  (
                    ground (arith, e, found),
                    subst (λ rs. length rs ≤ pos_part max_refs) same count,
                    subst (All (λ ref. length ref ≤ max 1 (pos_part max_ref_len))) same each,
                    subst (λ rs. length (join rs separator) ≤ max 1 (pos_part max_total_len)) same
                        (omega (arith, length-join refs separator two, total)),
                  )
            ]
