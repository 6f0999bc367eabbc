-- ===== src/Policy/Scanner/Select.antt =====
-- What the scanner keeps of the matches: disjoint findings, of which one covers each match.
use mathlib.Core.List.{Memᴰ}
use mathlib.Core.List.Permᴰ
use rillan.Base.{
  ℕ, ◌≤◌, ◌<◌, ◌≡◌, ◌≢◌, ◌⊎◌, inl, inr, refl, sym, subst, ltb_ℤ, ℤ, suc, ◌++◌, pos, negsuc,
  Ordering, true, false, List, [], ◌∷◌, map, All, length, arith, Str, Bool-cases,
}
use rillan.Base.Member.{mem-perm, of_mem-All, All-of_mem}
use rillan.Base.Sort.{sort_func}
use rillan.Base.Sort.Order.{
  IsOrder, then_by, then_by-IsOrder, on-IsOrder, compare-IsOrder, compare_down-IsOrder,
}
use rillan.Base.Sort.Laws.{IsSorted, sort_func-IsSorted, sort_func-perm, sort_func-All}
use rillan.Policy.Types.{Finding}
use rillan.Policy.Scanner.{
  Rule, RuleMatch, match_of, matches_from, compare_match, select_from, selected_findings,
}

-- The bounds that regexp promises of a match.
abbrev pub IsWithin : ℕ → Finding → Type 0
IsWithin n f = (f.start ≤ f.end) × (f.end ≤ n)

-- What regexp promises of the patterns of the rules on a text.
abbrev pub AreMatchers : List Rule → Str → Type 0
AreMatchers rules text =
    All (λ (r : Rule). All (λ (p : ℕ × ℕ). (p.0 ≤ p.1) × (p.1 ≤ length text)) (r.pattern text))
      rules

-- The findings stand one behind another from a position on.
abbrev pub IsSpaced : ℕ → List Finding → Type 0
IsSpaced n [] = Unit
IsSpaced n (f ∷ fs) = (n ≤ f.start) × (f.start ≤ f.end) × IsSpaced f.end fs

abbrev MatchWithin : ℕ → RuleMatch → Type 0
MatchWithin n m = IsWithin n m.finding

map_match-All :
    (n i : ℕ) (rule : Rule) (ps : List (ℕ × ℕ))
    → All (λ (p : ℕ × ℕ). (p.0 ≤ p.1) × (p.1 ≤ n)) ps
    → (ms : List RuleMatch) → All (MatchWithin n) ms
    → All (MatchWithin n) (map (match_of i rule) ps ++ ms)
map_match-All n i rule [] h ms k = k
map_match-All n i rule ((a, b) ∷ ps) (p, h) ms k = (p, map_match-All n i rule ps h ms k)

matches_from-All :
    (i : ℕ) (rules : List Rule) (text : Str)
    → AreMatchers rules text
    → All (MatchWithin (length text)) (matches_from i rules text)
unfolding matches_from
matches_from-All i [] text h = tt
matches_from-All i (r ∷ rules) text (p, h) =
    map_match-All (length text) i r (r.pattern text) p (matches_from (suc i) rules text)
      (matches_from-All (suc i) rules text h)

compare_match-IsOrder : IsOrder compare_match
unfolding compare_match
compare_match-IsOrder =
    then_by-IsOrder (on-IsOrder (λ (m : RuleMatch). m.finding.start) compare-IsOrder) (
      then_by-IsOrder (on-IsOrder (λ (m : RuleMatch). m.finding.end) compare_down-IsOrder)
        (on-IsOrder (λ (m : RuleMatch). m.rule_index) compare-IsOrder))

start_le : (m n : RuleMatch) → compare_match m n ≢ Ordering.gt → m.finding.start ≤ n.finding.start
unfolding compare_match then_by
start_le m n h = ground arith

-- The findings of what `select_from` keeps.
abbrev kept : ℤ → List RuleMatch → List Finding
kept last ms = map (λ (m : RuleMatch). m.finding) (select_from last ms)

kept-IsSpaced :
    (n k : ℕ) (ms : List RuleMatch) → All (MatchWithin n) ms → IsSpaced k (kept (pos k) ms)
unfolding select_from
kept-IsSpaced n k [] h = tt
kept-IsSpaced n k (m ∷ ms) (p, h) = elim (Bool-cases (ltb_ℤ (pos m.finding.start) (pos k))) [
  | inl e ↦ rw e (kept-IsSpaced n k ms h)
  | inr e ↦ rw e (ground arith, p.0, kept-IsSpaced n m.finding.end ms h)
]

kept-All :
    (P : Finding → Type 0) (last : ℤ) (ms : List RuleMatch)
    → All (λ (m : RuleMatch). P m.finding) ms
    → All P (kept last ms)
unfolding select_from
kept-All P last [] h = tt
kept-All P last (m ∷ ms) (p, h) = elim (Bool-cases (ltb_ℤ (pos m.finding.start) last)) [
  | inl e ↦ rw e (kept-All P last ms h)
  | inr e ↦ rw e (p, kept-All P (pos m.finding.end) ms h)
]

-- The start value -1 of the source works as 0.
kept_first : (ms : List RuleMatch) → kept (negsuc 0) ms ≡ kept (pos 0) ms
unfolding select_from
kept_first [] = refl
kept_first (m ∷ ms) = ground (arith, kept_first ms)

sorted_matches-All :
    (rules : List Rule) (text : Str)
    → AreMatchers rules text
    → All (MatchWithin (length text)) (sort_func compare_match (matches_from 0 rules text))
sorted_matches-All rules text h =
    sort_func-All compare_match (MatchWithin (length text)) (matches_from 0 rules text)
      (matches_from-All 0 rules text h)

-- The findings lie within the text, do not overlap, and stand in the order of the text.
pub selected_findings-IsSpaced :
    (rules : List Rule) (text : Str)
    → AreMatchers rules text
    → IsSpaced 0 (selected_findings rules text)
      × All (IsWithin (length text)) (selected_findings rules text)
unfolding selected_findings
selected_findings-IsSpaced rules text h = (
  rw (kept_first (sort_func compare_match (matches_from 0 rules text)))
      (kept-IsSpaced (length text) 0 _ (sorted_matches-All rules text h)),
  kept-All (IsWithin (length text)) (negsuc 0) _ (sorted_matches-All rules text h),
)

-- A match is covered by findings if one of them is the match, or starts no later and ends behind
-- the start of the match.
abbrev pub IsCovered : List Finding → RuleMatch → Type 0
IsCovered fs m =
    (f : Finding) × Memᴰ f fs
    × (f.start ≤ m.finding.start)
    × ((m.finding.start < f.end) ⊎ (f ≡ m.finding))

IsCovered-cons :
    (g : Finding) (fs : List Finding) (m : RuleMatch) → IsCovered fs m → IsCovered (g ∷ fs) m
IsCovered-cons g fs m (f, n, le, c) = (f, Memᴰ.tail n, le, c)

starts_le :
    (m : RuleMatch) (ms : List RuleMatch)
    → All (λ n. compare_match m n ≢ Ordering.gt) ms
    → All (λ (n : RuleMatch). m.finding.start ≤ n.finding.start) ms
starts_le m [] h = tt
starts_le m (n ∷ ms) (p, h) = (start_le m n p, starts_le m ms h)

kept_skip :
    (b : ℕ) (m : RuleMatch) (ms : List RuleMatch)
    → ltb_ℤ (pos m.finding.start) (pos b) ≡ true
    → kept (pos b) (m ∷ ms) ≡ kept (pos b) ms
unfolding select_from
kept_skip b m ms e = rw e

kept_add :
    (b : ℕ) (m : RuleMatch) (ms : List RuleMatch)
    → ltb_ℤ (pos m.finding.start) (pos b) ≡ false
    → kept (pos b) (m ∷ ms) ≡ m.finding ∷ kept (pos m.finding.end) ms
unfolding select_from
kept_add b m ms e = rw e

-- A match that starts before `b`, or is covered.
abbrev Seen : ℕ → List Finding → RuleMatch → Type 0
Seen b fs m = (m.finding.start < b) ⊎ IsCovered fs m

Seen-behind :
    (b : ℕ) (g : Finding) (fs : List Finding) (n : RuleMatch)
    → g.start ≤ n.finding.start
    → Seen g.end fs n
    → Seen b (g ∷ fs) n
Seen-behind b g fs n le (inl lt) = inr (g, Memᴰ.head refl, le, inl lt)
Seen-behind b g fs n le (inr c) = inr (IsCovered-cons g fs n c)

Seen-All :
    (b : ℕ) (g : Finding) (fs : List Finding) (ms : List RuleMatch)
    → All (λ (n : RuleMatch). g.start ≤ n.finding.start) ms
    → All (Seen g.end fs) ms
    → All (Seen b (g ∷ fs)) ms
Seen-All b g fs [] h k = tt
Seen-All b g fs (n ∷ ms) (p, h) (q, k) = (Seen-behind b g fs n p q, Seen-All b g fs ms h k)

-- Behind a finding that ends at `b`, each later match starts before `b` or is covered by what is
-- kept from there on.
cover :
    (b : ℕ) (ms : List RuleMatch) → IsSorted compare_match ms → All (Seen b (kept (pos b) ms)) ms
cover b [] s = tt
cover b (m ∷ ms) (q, s) = elim (Bool-cases (ltb_ℤ (pos m.finding.start) (pos b))) [
  | inl e ↦
      subst (λ fs. All (Seen b fs) (m ∷ ms)) (sym (kept_skip b m ms e))
        (inl (ground arith), cover b ms s)
  | inr e ↦
      subst (λ fs. All (Seen b fs) (m ∷ ms)) (sym (kept_add b m ms e))
        (
          inr (m.finding, Memᴰ.head refl, omega arith, inr refl),
          Seen-All b m.finding (kept (pos m.finding.end) ms) ms (starts_le m ms q)
              (cover m.finding.end ms s),
        )
]

IsCovered-of_Seen : (fs : List Finding) (m : RuleMatch) → Seen 0 fs m → IsCovered fs m
IsCovered-of_Seen fs m (inl lt) = absurd (omega arith)
IsCovered-of_Seen fs m (inr c) = c

-- Each match of each rule is covered: it starts inside of a finding, or is one.
pub matches-IsCovered :
    (rules : List Rule) (text : Str)
    → All (IsCovered (selected_findings rules text)) (matches_from 0 rules text)
unfolding selected_findings
matches-IsCovered rules text =
    let ms = sort_func compare_match (matches_from 0 rules text) in
    let sorted =
      sort_func-IsSorted compare_match compare_match-IsOrder (matches_from 0 rules text) in
    All-of_mem (IsCovered (kept (negsuc 0) ms)) (matches_from 0 rules text) (λ m k.
      rw (kept_first ms) (
        IsCovered-of_Seen (kept (pos 0) ms) m (
          of_mem-All (Seen 0 (kept (pos 0) ms)) ms (cover 0 ms sorted)
            (mem-perm (Permᴰ.symm (sort_func-perm compare_match (matches_from 0 rules text))) k))))
