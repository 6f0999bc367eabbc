-- ===== src/Retrieval/Prepare/Tests.antt =====
-- Searches that fail.
use rillan.Base.{
  ◌≡◌, ◌↔◌, inr, inl, refl, ℕ, pos, true, false, Option, none, some, List, [], Ordering,
}
use rillan.Retrieval.{SearchResult}
use rillan.Retrieval.Prepare.{Scores, PrepareError, combine_searches, fuse_search_results}
use rillan.Retrieval.Prepare.Search.{Fails, combine_searches-Fails_iff}

abbrev scores : Scores ℕ
scores = record {
  zero_score = 0;
  vector_weight = λ n. 40;
  keyword_weight = λ n. 60;
  add_score = λ a b. a;
  compare_down = λ a b. Ordering.eq;
}

abbrev failed : Option (List (SearchResult ℕ))
failed = none

combine_searches-Fails_iff_example :
    (Fails scores true failed failed (pos 3) ↔ ((failed ≡ none) × (failed ≡ none)))
    × (Fails scores false failed failed (pos 3) ↔ (failed ≡ some []))
combine_searches-Fails_iff_example = combine_searches-Fails_iff scores failed failed (pos 3) refl

-- Neither the embedding nor the keyword search worked, and there is no error.
both_failed : combine_searches scores false none none (pos 3) ≡ inr []
unfolding combine_searches
both_failed = refl

only_embedding_failed :
    combine_searches scores false none (some []) (pos 3) ≡ inl PrepareError.embed_failed
unfolding combine_searches fuse_search_results
only_embedding_failed = refl
