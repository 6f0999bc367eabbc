-- ===== src/Index/Pattern/Covers.antt =====
-- Which paths some patterns match, stated without a search.
use mathlib.Core.List.{Memᴰ}
use mathlib.Core.Bool.{and-eq-true_iff}
use rillan.Base.{
  split, ◌≡◌, ◌↔◌, inl, inr, Bool, true, false, Option, List, ◌++◌, is_empty, arith, Str, lit,
  str_eq, str_eq_iff, has_prefix, trim_space, Bool-cases,
}
use rillan.Base.Member.{mem_of_any, any_of_mem}
use rillan.Index.Pattern.{has_glob, has_slash, matches_glob, matches_one, matches_pattern}
use rillan.Index.Pattern.Glob.{IsGlob, match_path_segments_iff}

module _ (path_match : Str → Str → Option Bool) where
  -- A pattern with a wildcard whose segments match those of the path.
  abbrev pub IsMatch : Str → Str → Type 0
  IsMatch pattern value =
      (has_glob pattern ≡ true) × IsGlob path_match (split b'/' pattern) (split b'/' value)

  matches_glob_iff :
      (pattern value : Str) → (matches_glob path_match pattern value ≡ true) ↔ IsMatch pattern value
  unfolding matches_glob
  matches_glob_iff pattern value =
      let segments = match_path_segments_iff path_match (split b'/' pattern) (split b'/' value) in
      (
        λ e. let (g, m) = (and-eq-true_iff _ _).0 e in (g, segments.0 m),
        λ m. (and-eq-true_iff _ _).1 (m.0, segments.1 m.1),
      )

  module _ (base_of : Str → Str) where
    -- A pattern covers the path that it is, the paths below it, those that it matches, and, if it
    -- has no slash, those whose last element it matches.
    pub data Covers (value : Str) (pattern : Str) : Type 0 where
      same : value ≡ pattern → Covers value pattern
      below : has_prefix value (pattern ++ lit "/") ≡ true → Covers value pattern
      matched : IsMatch pattern value → Covers value pattern
      base_matched :
          has_slash pattern ≡ false → IsMatch pattern (base_of value) → Covers value pattern

    matches_one-Covers :
        (value pattern : Str)
        → matches_one path_match base_of value pattern ≡ true
        → (is_empty (trim_space pattern) ≡ false) × Covers value (trim_space pattern)
    unfolding matches_one
    matches_one-Covers value pattern e =
        let clean = trim_space pattern in
        (
          ground (arith, e),
          elim (Bool-cases (str_eq value clean)) [
            | inl equal ↦ Covers.same ((str_eq_iff value clean).0 equal)
            | inr other ↦ elim (Bool-cases (has_prefix value (clean ++ lit "/"))) [
              | inl prefix ↦ Covers.below prefix
              | inr outside ↦ elim (Bool-cases (matches_glob path_match clean value)) [
                | inl found ↦ Covers.matched ((matches_glob_iff clean value).0 found)
                | inr missed ↦ Covers.base_matched (ground (arith, e, other, outside, missed)) (
                    (matches_glob_iff clean (base_of value)).0
                      (ground (arith, e, other, outside, missed)))
              ]
            ]
          ],
        )

    matches_one-true :
        (value pattern : Str)
        → is_empty (trim_space pattern) ≡ false
        → Covers value (trim_space pattern)
        → matches_one path_match base_of value pattern ≡ true
    unfolding matches_one
    matches_one-true value pattern filled (Covers.same equal) =
        ground (arith, filled, (str_eq_iff value (trim_space pattern)).1 equal)
    matches_one-true value pattern filled (Covers.below prefix) = ground (arith, filled, prefix)
    matches_one-true value pattern filled (Covers.matched m) =
        ground (arith, filled, (matches_glob_iff (trim_space pattern) value).1 m)
    matches_one-true value pattern filled (Covers.base_matched plain m) =
        ground (arith, filled, plain, (matches_glob_iff (trim_space pattern) (base_of value)).1 m)

    -- A path matches a list of patterns exactly when one of them, trimmed, is not empty and covers
    -- the trimmed path: it is the path or a directory above it, or it has a wildcard and its
    -- segments match those of the path, two stars standing for any number of them, or it has a
    -- wildcard and no slash and matches the last element of the path.
    pub matches_pattern-covered_iff :
        (raw : Str) (patterns : List Str)
        → (matches_pattern path_match base_of raw patterns ≡ true) ↔ (
            (pattern : Str) × Memᴰ pattern patterns
            × (is_empty (trim_space pattern) ≡ false)
            × Covers (trim_space raw) (trim_space pattern))
    unfolding matches_pattern
    matches_pattern-covered_iff raw patterns =
        let value = trim_space raw in
        (
          λ e.
              let (pattern, member, found) =
                mem_of_any (matches_one path_match base_of value) patterns e in
              let (filled, covers) = matches_one-Covers value pattern found in
              (pattern, member, filled, covers),
          λ c.
              any_of_mem (matches_one path_match base_of value) patterns c.1
                (matches_one-true value c.0 c.2 c.3),
        )
