-- ===== src/Policy/Scanner/Tests.antt =====
-- Scans at concrete texts, with patterns that stand for compiled expressions.
use mathlib.Core.List.{Memᴰ}
use rillan.Base.{ℕ, ◌≡◌, refl, ◌↔◌, true, false, List, [], ◌∷◌, All, length, arith, Str, lit}
use rillan.Policy.Types.{FindingAction, Finding}
use rillan.Policy.Scanner.{Rule, matches_from, scan}
use rillan.Policy.Scanner.Select.{IsWithin, AreMatchers, IsSpaced, IsCovered}
use rillan.Policy.Scanner.Redact.{assemble, scan_sound, scan-blocks_iff, scan-hides_block}

abbrev rule_at : FindingAction → List (ℕ × ℕ) → Rule
rule_at action places = record {
  id = lit "r";
  category = [];
  action = action;
  pattern = λ _. places;
  replacement = lit "*";
}

abbrev text : Str
text = lit "abcdefghij"

-- Two matches of the first rule, and one of the second that starts inside of the first's last.
abbrev rules : List Rule
rules =
    rule_at FindingAction.redact ((1, 3) ∷ (5, 8) ∷ [])
    ∷ rule_at FindingAction.block ((6, 9) ∷ [])
    ∷ []

redacted : (scan rules text).redacted_body ≡ lit "a*de*ij"
unfolding scan lit
redacted = refl

rules-AreMatchers : AreMatchers rules text
unfolding lit
rules-AreMatchers = omega arith

scan_sound_example :
    IsSpaced 0 (scan rules text).findings
    × All (IsWithin (length text)) (scan rules text).findings
    × All (IsCovered (scan rules text).findings) (matches_from 0 rules text)
    × ((scan rules text).redacted_body ≡ assemble 0 (scan rules text).findings text)
scan_sound_example = scan_sound rules text rules-AreMatchers

blocks_found :
    ((scan rules text).has_blocking_findings ≡ true)
    ↔ ((f : Finding) × Memᴰ f (scan rules text).findings × (f.action ≡ FindingAction.block))
blocks_found = scan-blocks_iff rules text

scan-hides_block_example :
    (scan
      (rule_at FindingAction.redact ((5, 8) ∷ []) ∷ rule_at FindingAction.block ((6, 9) ∷ []) ∷ [])
      text).has_blocking_findings
    ≡ false
scan-hides_block_example =
    scan-hides_block (rule_at FindingAction.redact ((5, 8) ∷ []))
      (rule_at FindingAction.block ((6, 9) ∷ [])) text 5 8 6 9 refl refl refl refl (omega arith)
      (omega arith)
