-- ===== src/Index/Pattern.antt =====
-- The patterns of internal/index/discovery.go. path.Match and path.Base are the parameters
-- `path_match`, which gives none for an error, and `base_of`; filepath.ToSlash changes nothing
-- where the separator is a slash.
pub mod Covers
pub mod Glob
mod Tests
use rillan.Base.{
  split, ℕ, Bool, true, false, not, ◌&&◌, ◌||◌, ◌==◌, if◌then◌else◌, Option, none, some, List, [],
  ◌∷◌, ◌++◌, any, is_empty, is_none, Str, lit, str_eq, str_mem, has_prefix, trim_space,
  normalize_string,
}

unfoldable pub should_skip_dir : Str → Bool
should_skip_dir name =
    str_mem name (lit ".git" ∷ lit "node_modules" ∷ lit ".direnv" ∷ lit ".idea" ∷ [])

-- `strings.ContainsAny(pattern, "*?[")`
unfoldable pub has_glob : Str → Bool
has_glob pattern = any (λ c. c == b'*' || (c == b'?' || c == b'[')) pattern

-- `strings.Contains(pattern, "/")`
unfoldable pub has_slash : Str → Bool
has_slash pattern = any (λ c. c == b'/') pattern

abbrev pub double_star : Str
double_star = lit "**"

abbrev pub is_true : Option Bool → Bool
is_true (some true) = true
is_true (some false) = false
is_true none = false

module _ (path_match : Str → Str → Option Bool) where
  unfoldable pub match_path_segments : List Str → List Str → Bool
  match_path_segments [] [] = true
  match_path_segments [] (v ∷ vs) = false
  match_path_segments (p ∷ ps) [] =
      let skipped = match_path_segments ps [] in str_eq p double_star && skipped
  match_path_segments (p ∷ ps) (v ∷ vs) =
      let skipped = match_path_segments ps (v ∷ vs) in
      let longer = match_path_segments (p ∷ ps) vs in
      let next = match_path_segments ps vs in
      if str_eq p double_star then skipped || longer else is_true (path_match p v) && next

  unfoldable pub matches_glob : Str → Str → Bool
  unfolding match_path_segments split has_glob
  matches_glob pattern value =
      has_glob pattern && match_path_segments (split b'/' pattern) (split b'/' value)

  module _ (base_of : Str → Str) where
    -- The round of the loop of `matchesPattern` for one pattern.
    unfoldable pub matches_one : Str → Str → Bool
    unfolding matches_glob
    matches_one value pattern =
        let clean = trim_space pattern in
        not (is_empty clean)
        && ((str_eq value clean || has_prefix value (clean ++ lit "/"))
            || (matches_glob clean value
                || (not (has_slash clean) && matches_glob clean (base_of value))))

    unfoldable pub matches_pattern : Str → List Str → Bool
    unfolding matches_one
    matches_pattern raw patterns = let value = trim_space raw in any (matches_one value) patterns
