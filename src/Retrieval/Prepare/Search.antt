-- ===== src/Retrieval/Prepare/Search.antt =====
-- When the searches of `Prepare` fail.
use rillan.Base.{
  ◌≡◌, ◌↔◌, inl, ℤ, pos, Bool, true, false, Option, none, some, List, [], ◌∷◌, arith, ltb_ℤ,
  Option-cases, inr, refl, zero, suc, negsuc, is_empty,
}
use rillan.Retrieval.{SearchResult}
use rillan.Retrieval.Prepare.{Scores, PrepareError, limited, fuse_search_results, combine_searches}

module _ {F : Type 0} (fl : Scores F) where
  limited-some :
      (limit : ℤ) (rs : List (SearchResult F))
      → ltb_ℤ limit (pos 1) ≡ false
      → (limited limit rs ≡ none)
      → ⊥
  unfolding limited
  limited-some limit rs h e = ground (arith, h, e)

  fuse-some :
      (vector keyword : List (SearchResult F)) (limit : ℤ)
      → ltb_ℤ limit (pos 1) ≡ false
      → (fuse_search_results fl vector keyword limit ≡ none)
      → ⊥
  unfolding fuse_search_results
  fuse-some [] keyword limit h e = limited-some limit keyword h e
  fuse-some (v ∷ vs) [] limit h e = limited-some limit (v ∷ vs) h e
  fuse-some (v ∷ vs) (k ∷ ks) limit h e = limited-some limit _ h e

  fuse-is_empty :
      (k : SearchResult F) (ks : List (SearchResult F)) (limit : ℤ) (rs : List (SearchResult F))
      → ltb_ℤ limit (pos 1) ≡ false
      → fuse_search_results fl [] (k ∷ ks) limit ≡ some rs
      → is_empty rs ≡ false
  unfolding fuse_search_results limited
  fuse-is_empty k ks (pos zero) rs h e = absurd (ground (arith, h))
  fuse-is_empty k ks (pos (suc n)) rs h e = ground (arith, e)
  fuse-is_empty k ks (negsuc n) rs h e = absurd (ground (arith, h))

  abbrev pub Fails :
      Bool → Option (List (SearchResult F)) → Option (List (SearchResult F)) → ℤ → Type 0
  Fails embedded vector keyword limit =
      (err : PrepareError) × (combine_searches fl embedded vector keyword limit ≡ inl err)

  -- Two searches whose fusion does not panic.
  fused-succeeds :
      (embedded : Bool) (vector : Option (List (SearchResult F))) (k : SearchResult F)
      (ks : List (SearchResult F)) (limit : ℤ)
      → ltb_ℤ limit (pos 1) ≡ false
      → Fails embedded vector (some (k ∷ ks)) limit
      → ⊥
  unfolding combine_searches
  fused-succeeds true none k ks limit h (err, e) =
      elim (Option-cases (fuse_search_results fl [] (k ∷ ks) limit)) [
        | inl f ↦ fuse-some [] (k ∷ ks) limit h f
        | inr (rs, f) ↦ ground (arith, e, f)
      ]
  fused-succeeds true (some v) k ks limit h (err, e) =
      elim (Option-cases (fuse_search_results fl v (k ∷ ks) limit)) [
        | inl f ↦ fuse-some v (k ∷ ks) limit h f
        | inr (rs, f) ↦ ground (arith, e, f)
      ]
  fused-succeeds false vector k ks limit h (err, e) =
      elim (Option-cases (fuse_search_results fl [] (k ∷ ks) limit)) [
        | inl f ↦ fuse-some [] (k ∷ ks) limit h f
        | inr (rs, f) ↦ ground (arith, e, f, fuse-is_empty k ks limit rs h f)
      ]

  embedded_iff :
      (vector keyword : Option (List (SearchResult F))) (limit : ℤ)
      → ltb_ℤ limit (pos 1) ≡ false
      → Fails true vector keyword limit ↔ ((vector ≡ none) × (keyword ≡ none))
  unfolding combine_searches
  embedded_iff none none limit h = (λ f. (refl, refl), λ both. (_, refl))
  embedded_iff (some v) none limit h = ground arith
  embedded_iff none (some []) limit h = ground arith
  embedded_iff (some v) (some []) limit h = ground arith
  embedded_iff vector (some (k ∷ ks)) limit h = (
    λ f. absurd (fused-succeeds true vector k ks limit h f),
    λ both. absurd (ground (arith, both)),
  )

  unembedded_iff :
      (vector keyword : Option (List (SearchResult F))) (limit : ℤ)
      → ltb_ℤ limit (pos 1) ≡ false
      → Fails false vector keyword limit ↔ (keyword ≡ some [])
  unfolding combine_searches
  unembedded_iff vector none limit h = ground arith
  unembedded_iff vector (some []) limit h = (λ f. refl, λ same. (_, refl))
  unembedded_iff vector (some (k ∷ ks)) limit h = (
    λ f. absurd (fused-succeeds false vector k ks limit h f),
    λ both. absurd (ground (arith, both)),
  )

  -- With a positive limit, the two searches of a query with a vector fail exactly if
  -- both fail; those of a query without a vector fail exactly if the keyword search succeeds and
  -- finds nothing, so that they do not fail where the keyword search does.
  pub combine_searches-Fails_iff :
      (vector keyword : Option (List (SearchResult F))) (limit : ℤ)
      → ltb_ℤ limit (pos 1) ≡ false
      → (Fails true vector keyword limit ↔ ((vector ≡ none) × (keyword ≡ none)))
        × (Fails false vector keyword limit ↔ (keyword ≡ some []))
  combine_searches-Fails_iff vector keyword limit h =
      (embedded_iff vector keyword limit h, unembedded_iff vector keyword limit h)
