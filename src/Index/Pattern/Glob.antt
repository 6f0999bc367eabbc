-- ===== src/Index/Pattern/Glob.antt =====
-- What a pattern covers, stated without a search.
use mathlib.Core.Bool.{false≢true, and-eq-true_iff}
use rillan.Base.{
  ◌≡◌, ◌∙◌, sym, subst, Option-cases, ◌≢◌, ◌↔◌, ◌⊎◌, inl, inr, refl, ℕ, zero, suc, ◌≤◌, Bool, true,
  false, Option, some, List, [], ◌∷◌, drop, length, arith, Str, str_eq, str_eq_iff, Bool-cases,
}
use rillan.Index.Pattern.{double_star, match_path_segments}

module _ (path_match : Str → Str → Option Bool) where
  -- Two stars stand for any number of segments, and another pattern for one that it matches.
  abbrev pub IsGlob : List Str → List Str → Type 0
  IsGlob [] vs = vs ≡ []
  IsGlob (p ∷ ps) vs =
      ((p ≡ double_star) × ((n : ℕ) × (n ≤ length vs) × IsGlob ps (drop n vs)))
      ⊎ ((p ≢ double_star)
          × ((v : Str) × (rest : List Str) × (vs ≡ v ∷ rest)
              × (path_match p v ≡ some true)
              × IsGlob ps rest))

  step_star :
      (p : Str) (ps : List Str) (v : Str) (vs : List Str)
      → str_eq p double_star ≡ true
      → match_path_segments path_match (p ∷ ps) (v ∷ vs) ≡ true
      → (match_path_segments path_match ps (v ∷ vs) ≡ true)
        ⊎ (match_path_segments path_match (p ∷ ps) vs ≡ true)
  unfolding match_path_segments
  step_star p ps v vs star e = elim (Bool-cases (match_path_segments path_match ps (v ∷ vs))) [
    | inl found ↦ inl found
    | inr other ↦ inr (ground (arith, e, star, other))
  ]

  step_plain :
      (p : Str) (ps : List Str) (v : Str) (vs : List Str)
      → str_eq p double_star ≡ false
      → match_path_segments path_match (p ∷ ps) (v ∷ vs) ≡ true
      → (path_match p v ≡ some true) × (match_path_segments path_match ps vs ≡ true)
  unfolding match_path_segments
  step_plain p ps v vs plain e = elim (Option-cases (path_match p v)) [
    | inl failed ↦ absurd (ground (arith, e, plain, failed))
    | inr (true, matched) ↦ (matched, ground (arith, e, plain, matched))
    | inr (false, failed) ↦ absurd (ground (arith, e, plain, failed))
  ]

  plain_ne : (p : Str) → str_eq p double_star ≡ false → p ≢ double_star
  plain_ne p plain = λ same. false≢true (sym plain ∙ (str_eq_iff p double_star).1 same)

  plain_step :
      (p : Str) (ps : List Str) (v : Str) (vs : List Str)
      → p ≢ double_star
      → path_match p v ≡ some true
      → match_path_segments path_match ps vs ≡ true
      → match_path_segments path_match (p ∷ ps) (v ∷ vs) ≡ true
  unfolding match_path_segments
  plain_step p ps v vs ne matched e = elim (Bool-cases (str_eq p double_star)) [
    | inl star ↦ absurd (ne ((str_eq_iff p double_star).0 star))
    | inr plain ↦ ground (arith, plain, matched, e)
  ]

  skip :
      (p : Str) (ps : List Str)
      → str_eq p double_star ≡ true
      → (n : ℕ) (vs : List Str) → n ≤ length vs
      → match_path_segments path_match ps (drop n vs) ≡ true
      → match_path_segments path_match (p ∷ ps) vs ≡ true
  unfolding match_path_segments
  skip p ps star zero [] bound e = ground (arith, star, e)
  skip p ps star zero (v ∷ vs) bound e = ground (arith, star, e)
  skip p ps star (suc n) [] bound e = absurd (omega arith)
  skip p ps star (suc n) (v ∷ vs) bound e =
      let rest = skip p ps star n vs (omega arith) e in ground (arith, star, rest)

  -- A match of two stars from the second segment on is one from the first.
  one_more :
      (p : Str) (ps : List Str) (v : Str) (vs : List Str)
      → IsGlob (p ∷ ps) vs
      → str_eq p double_star ≡ true
      → IsGlob (p ∷ ps) (v ∷ vs)
  one_more p ps v vs (inl (same, (n, bound, g))) star = inl (same, (suc n, omega arith, g))
  one_more p ps v vs (inr (ne, g)) star = absurd (ne ((str_eq_iff p double_star).0 star))

  match-IsGlob : (ps vs : List Str) → match_path_segments path_match ps vs ≡ true → IsGlob ps vs
  unfolding match_path_segments
  match-IsGlob [] [] e = refl
  match-IsGlob [] (v ∷ vs) e = absurd (cc)
  match-IsGlob (p ∷ ps) [] e =
      let (star, rest) = (and-eq-true_iff _ _).0 e in
      inl ((str_eq_iff p double_star).0 star, (0, omega arith, match-IsGlob ps [] rest))
  match-IsGlob (p ∷ ps) (v ∷ vs) e = elim (Bool-cases (str_eq p double_star)) [
    | inl star ↦ elim (step_star p ps v vs star e) [
      | inl here ↦
          inl ((str_eq_iff p double_star).0 star, (0, omega arith, match-IsGlob ps (v ∷ vs) here))
      | inr later ↦ one_more p ps v vs (match-IsGlob (p ∷ ps) vs later) star
    ]
    | inr plain ↦
        let (matched, rest) = step_plain p ps v vs plain e in
        inr (plain_ne p plain, (v, vs, refl, matched, match-IsGlob ps vs rest))
  ]

  segments_match : (ps vs : List Str) → IsGlob ps vs → match_path_segments path_match ps vs ≡ true
  unfolding match_path_segments
  segments_match [] [] g = refl
  segments_match [] (v ∷ vs) g = absurd (cc)
  segments_match (p ∷ ps) vs (inl (star, (n, bound, g))) =
      skip p ps ((str_eq_iff p double_star).1 star) n vs bound (segments_match ps (drop n vs) g)
  segments_match (p ∷ ps) vs (inr (ne, (v, rest, same, matched, g))) =
      subst (λ us. match_path_segments path_match (p ∷ ps) us ≡ true) (sym same)
        (plain_step p ps v rest ne matched (segments_match ps rest g))

  -- The search of `matchPathSegments` finds a match exactly when there is one.
  pub match_path_segments_iff :
      (ps vs : List Str) → (match_path_segments path_match ps vs ≡ true) ↔ IsGlob ps vs
  match_path_segments_iff ps vs = (match-IsGlob ps vs, segments_match ps vs)
