-- ===== src/Retrieval/Context/Bounds.antt =====
-- The compiled context stays within its limit, and its sources are the first of the results.
use rillan.Base.{
  ℕ, suc, ◌-◌, ◌==◌, ◌||◌, subst, ◌≤◌, ◌≡◌, ◌⊎◌, inl, inr, refl, sym, ap, ℤ, pos, pos_part, ltb_ℤ,
  Bool, true, false, leb, if◌then◌else◌, not, ◌&&◌, Option, none, some, List, [], ◌∷◌, ◌++◌, map,
  Str, arith, length, take, length-append, length-take-le, length-trim_space-le, trim_space,
  Option-cases, Bool-cases,
}
use rillan.Retrieval.{SearchResult, SourceReference}
use rillan.Retrieval.Context.{
  trim_section, suffix, separator, fit_section, reference_of, source_of, compile_from,
  compile_context,
}

length-trim_section-le :
    (reference content : Str) (available : ℕ)
    → length (trim_section reference content available) ≤ available
unfolding trim_section
length-trim_section-le reference content available =
    let limit = available - length reference - 1 in
    let cut = take (limit - length suffix) content in
    ground (
      arith,
      length-append reference (b'\n' ∷ content),
      length-append reference (b'\n' ∷ (trim_space cut ++ suffix)),
      length-append (trim_space cut) suffix,
      length-trim_space-le cut,
      length-take-le (limit - length suffix) content,
    )

fit_section-bounded :
    (first : Bool) (remaining : ℕ) (reference content section : Str) (cut : Bool)
    → fit_section first remaining reference content ≡ some (section, cut)
    → length section ≤ remaining
unfolding fit_section
fit_section-bounded first remaining reference content section cut e =
    let available = if not first && leb 2 remaining then remaining - 2 else remaining in
    let trimmed = trim_section reference content available in
    ground (
      arith,
      e,
      length-trim_section-le reference content available,
      length-append (separator first) trimmed,
    )

module _ {F : Type 0} where
  -- What holds of a run over some results with some room left.
  abbrev IsFitted : ℕ → List (SearchResult F) → Str × List (SourceReference F) × Bool → Type 0
  IsFitted remaining results run =
      (length run.0 ≤ remaining)
      × ((k : ℕ) × (run.1 ≡ map source_of (take k results)))
      × (run.2 ≡ false → (run.1 ≡ map source_of results) ⊎ (length run.0 ≡ remaining))

  module _ (i : ℕ) (first : Bool) (remaining : ℕ) (result : SearchResult F)
      (results : List (SearchResult F)) where
    abbrev fitted : Option (Str × Bool)
    fitted = fit_section first remaining (reference_of i result) result.content

    compile_stops :
        fitted ≡ none → compile_from i first remaining (result ∷ results) ≡ ([], [], true)
    unfolding compile_from
    compile_stops e = rw (e, compile_from)

    compile_fills :
        (section : Str) (cut : Bool)
        → fitted ≡ some (section, cut)
        → remaining - length section ≡ 0
        → compile_from i first remaining (result ∷ results) ≡ (section, source_of result ∷ [], cut)
    unfolding compile_from
    compile_fills section cut e full = rw (e, full, compile_from)

    compile_goes_on :
        (section : Str) (cut : Bool)
        → fitted ≡ some (section, cut)
        → ((remaining - length section) == 0) ≡ false
        → compile_from i first remaining (result ∷ results) ≡ (
            let (text, sources, truncated) =
              compile_from (suc i) false (remaining - length section) results in
            (section ++ text, source_of result ∷ sources, cut || truncated))
    unfolding compile_from
    compile_goes_on section cut e more = rw (e, more, compile_from)

  compile_from-IsFitted :
      (i : ℕ) (first : Bool) (remaining : ℕ) (results : List (SearchResult F))
      → IsFitted remaining results (compile_from i first remaining results)
  unfolding compile_from
  compile_from-IsFitted i first remaining [] = (omega arith, (0, refl), λ e. inl refl)
  compile_from-IsFitted i first remaining (result ∷ results) =
      elim (Option-cases (fitted i first remaining result results)) [
        | inl e ↦
            subst (IsFitted remaining (result ∷ results))
              (sym (compile_stops i first remaining result results e))
              (omega arith, (0, refl), λ bad. cc)
        | inr ((section, cut), e) ↦
            let fits =
              fit_section-bounded first remaining (reference_of i result) result.content section cut
                e in
            let left = remaining - length section in
            elim (Bool-cases (left == 0)) [
              | inl full ↦
                  let zero_left : left ≡ 0 = ground arith in
                  subst (IsFitted remaining (result ∷ results))
                    (sym (compile_fills i first remaining result results section cut e zero_left))
                    (fits, (1, refl), λ _. inr (omega (arith, fits, zero_left)))
              | inr more ↦
                  let (bound, (k, sources), whole) =
                    compile_from-IsFitted (suc i) false left results in
                  let run = compile_from (suc i) false left results in
                  subst (IsFitted remaining (result ∷ results))
                    (sym (compile_goes_on i first remaining result results section cut e more))
                    (
                      omega (arith, length-append section run.0, bound, fits),
                      (suc k, ap (◌∷◌ (source_of result)) sources),
                      λ clear. elim (whole (ground (arith, clear))) [
                        | inl all_in ↦ inl (ap (◌∷◌ (source_of result)) all_in)
                        | inr filled ↦
                            inr (omega (arith, length-append section run.0, filled, fits))
                      ],
                    )
            ]
      ]

  -- The compiled text is never longer than the limit, and the sources are the first results, in
  -- their order. Under a positive limit, what is not reported as truncated has all the results,
  -- or fills the limit to the last byte.
  pub compile_context-fits :
      (results : List (SearchResult F)) (max_chars : ℤ)
      → let c = compile_context results max_chars in
        (length c.text ≤ pos_part max_chars)
        × ((k : ℕ) × (c.sources ≡ map source_of (take k results)))
        × (ltb_ℤ max_chars (pos 1) ≡ false
            → c.truncated ≡ false
            → (c.sources ≡ map source_of results) ⊎ (length c.text ≡ pos_part max_chars))
  unfolding compile_context
  compile_context-fits results max_chars =
      let (bound, sources, whole) = compile_from-IsFitted 1 true (pos_part max_chars) results in
      elim (Bool-cases (ltb_ℤ max_chars (pos 1))) [
        | inl small ↦ rw (small, compile_context) (omega arith, (0, refl), λ bad. cc)
        | inr large ↦ rw (large, compile_context) (bound, sources, λ _. whole)
      ]
