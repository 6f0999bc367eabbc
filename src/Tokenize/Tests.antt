-- ===== src/Tokenize/Tests.antt =====
-- A codec whose tokens are the bytes, and one that cannot be loaded.
use rillan.Base.{
  ◌≡◌, refl, ◌⊎◌, inl, inr, ℕ, if◌then◌else◌, Option, none, some, List, [], ◌∷◌, map, length, Str,
  lit, str_eq, str_mem, lookup, has_prefix, to_lower, trim_space,
}
use rillan.Base.Map.{put}
use rillan.Tokenize.{
  LoadError, encoding_for_model, o200k_base, cl100k_base, new_counter, count_strings, count_from,
  count, counted, load_codec, warn_once, warn_unsupported, approximated, approximate_tokens,
  add_result,
}
use rillan.Tokenize.Cached.{IsOnce, count_stateless}
use rillan.Tokenize.Refine.{calls_of, count_strings-refines}

unfoldable get : Str → LoadError ⊎ Unit {0}
get encoding = if str_eq encoding o200k_base then inr tt else inl LoadError.not_supported

abbrev count_with : Unit {0} → Str → Option ℕ
count_with codec text = some (length text)

abbrev calls : List (Str × List Str)
calls =
    (lit "gpt-4o-mini", lit "abc" ∷ lit "de" ∷ [])
    ∷ (lit "other", lit "abcde" ∷ [])
    ∷ (lit " Other ", lit "abcde" ∷ lit "f" ∷ [])
    ∷ []

running : Unit {0}
unfolding get calls_of count_strings count_from count counted load_codec warn_once warn_unsupported
    approximated approximate_tokens add_result encoding_for_model put lookup str_mem str_eq
    has_prefix to_lower trim_space lit
running = tt

families :
    map encoding_for_model (lit " GPT-4.1-mini" ∷ lit "gpt-4-turbo" ∷ lit "o3" ∷ lit "claude" ∷ [])
    ≡ some o200k_base ∷ some cl100k_base ∷ some o200k_base ∷ none ∷ []
unfolding running
families = refl

-- The model that is not known is warned of once.
warned_once :
    (calls_of get count_with calls (new_counter get count_with)).1.log ≡ lit "model:other" ∷ []
unfolding running
warned_once = refl

count_strings-refines_example :
    ((calls_of get count_with calls (new_counter get count_with)).0
      ≡ map (λ call. (count_strings (count_stateless get count_with) call.0 call.1 tt).0) calls)
    × IsOnce (calls_of get count_with calls (new_counter get count_with)).1.log
count_strings-refines_example = count_strings-refines get count_with calls
