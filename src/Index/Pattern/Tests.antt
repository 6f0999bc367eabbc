-- ===== src/Index/Pattern/Tests.antt =====
-- Patterns of directories and files.
use mathlib.Core.List.{Memᴰ}
use rillan.Base.{
  split, ◌≡◌, ◌↔◌, refl, Bool, true, false, ◌||◌, Option, some, List, [], ◌∷◌, Str, lit, is_empty,
  str_eq, has_prefix, trim_space,
}
use rillan.Index.Pattern.{
  has_glob, has_slash, match_path_segments, matches_glob, matches_one, matches_pattern,
}
use rillan.Index.Pattern.Covers.{Covers, matches_pattern-covered_iff}

-- A star alone, or the text itself.
unfoldable path_match : Str → Str → Option Bool
unfolding str_eq
path_match pattern name = some (str_eq pattern (lit "*") || str_eq pattern name)

abbrev base_of : Str → Str
base_of value = lit "a"

abbrev patterns : List Str
patterns = lit "docs" ∷ lit " src/**/a " ∷ []

running : Unit {0}
unfolding split has_glob has_slash match_path_segments matches_glob matches_one matches_pattern
    path_match str_eq has_prefix trim_space lit
running = tt

deep : matches_pattern path_match base_of (lit "src/b/c/a") patterns ≡ true
unfolding running
deep = refl

directly : matches_pattern path_match base_of (lit "src/a") patterns ≡ true
unfolding running
directly = refl

below : matches_pattern path_match base_of (lit "docs/x") patterns ≡ true
unfolding running
below = refl

outside : matches_pattern path_match base_of (lit "lib/a") patterns ≡ false
unfolding running
outside = refl

matches_pattern-covered_iff_example :
    (matches_pattern path_match base_of (lit "src/b/c/a") patterns ≡ true) ↔ (
      (pattern : Str) × Memᴰ pattern patterns
      × (is_empty (trim_space pattern) ≡ false)
      × Covers path_match base_of (trim_space (lit "src/b/c/a")) (trim_space pattern))
matches_pattern-covered_iff_example =
    matches_pattern-covered_iff path_match base_of (lit "src/b/c/a") patterns
