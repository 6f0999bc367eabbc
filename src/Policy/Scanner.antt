-- ===== src/Policy/Scanner.antt =====
-- internal/policy/scanner.go. A compiled pattern is the function `FindAllStringIndex(text, -1)`
-- of package regexp: the pairs of start and end of its matches. Rules take theirs as a field.
pub mod Select
pub mod Redact
mod Tests
use rillan.Base.{
  ℕ, suc, ◌-◌, ◌+◌, ltb, ltb_ℤ, ℤ, pos, negsuc, compare, Ordering, if◌then◌else◌, Bool, true, false,
  not, any, List, [], ◌∷◌, ◌++◌, map, take, drop, is_empty, Str, String, lit,
}
use rillan.Base.Sort.{sort_func}
use rillan.Base.Sort.Order.{then_by}
use rillan.Policy.Types.{FindingAction, Finding, ScanResult}

abbrev pub Pattern : Type 0
Pattern = Str → List (ℕ × ℕ)

pub record Rule : Type 0 where
  pub id : Str
  pub category : Str
  pub action : FindingAction
  pub pattern : Pattern
  pub replacement : Str

-- `match` of the source
pub record RuleMatch : Type 0 where
  pub rule_index : ℕ
  pub finding : Finding

-- `DefaultScanner`, over the compiler of regular expressions.
unfoldable pub default_rules : (String → Pattern) → List Rule
default_rules compile =
    record {
      id = lit "openai_api_key";
      category = lit "api_key";
      action = FindingAction.redact;
      pattern = compile "\\bsk-[A-Za-z0-9]{20,}\\b";
      replacement = lit "[REDACTED OPENAI API KEY]";
    }
    ∷ record {
      id = lit "github_token";
      category = lit "token";
      action = FindingAction.redact;
      pattern = compile "\\bgh[pousr]_[A-Za-z0-9_]{20,}\\b";
      replacement = lit "[REDACTED GITHUB TOKEN]";
    }
    ∷ record {
      id = lit "bearer_token";
      category = lit "authorization";
      action = FindingAction.redact;
      pattern = compile "(?i)Bearer\\s+[A-Za-z0-9._\\-+/=]{16,}";
      replacement = lit "Bearer [REDACTED TOKEN]";
    }
    ∷ record {
      id = lit "aws_access_key";
      category = lit "api_key";
      action = FindingAction.redact;
      pattern = compile "\\bAKIA[0-9A-Z]{16}\\b";
      replacement = lit "[REDACTED AWS ACCESS KEY]";
    }
    ∷ record {
      id = lit "private_key";
      category = lit "private_key";
      action = FindingAction.block;
      pattern = compile "-----BEGIN(?: [A-Z]+)? PRIVATE KEY-----";
      replacement = lit "[BLOCKED PRIVATE KEY]";
    }
    ∷ []

abbrev pub match_of : ℕ → Rule → ℕ × ℕ → RuleMatch
match_of i rule (start, end) = record {
  rule_index = i;
  finding = record {
    rule_id = rule.id;
    category = rule.category;
    action = rule.action;
    start = start;
    end = end;
    length = end - start;
    replacement = rule.replacement;
  };
}

-- The loop of `Scan` over the rules, from rule `i` on.
unfoldable pub matches_from : ℕ → List Rule → Str → List RuleMatch
matches_from i [] text = []
matches_from i (rule ∷ rules) text =
    map (match_of i rule) (rule.pattern text) ++ matches_from (suc i) rules text

-- By start, then the longer match, then the earlier rule.
unfoldable pub compare_match : RuleMatch → RuleMatch → Ordering
unfolding then_by
compare_match m n =
    then_by (compare m.finding.start n.finding.start)
      (then_by (compare n.finding.end m.finding.end) (compare m.rule_index n.rule_index))

-- The loop that drops what starts before the end of the last match it kept.
unfoldable pub select_from : ℤ → List RuleMatch → List RuleMatch
select_from last_end [] = []
select_from last_end (m ∷ ms) =
    let skipped = select_from last_end ms in
    let kept = m ∷ select_from (pos m.finding.end) ms in
    if ltb_ℤ (pos m.finding.start) last_end then skipped else kept

-- The replacements, made from the last finding to the first.
unfoldable pub redact_all : List Finding → Str → Str
redact_all [] text = text
redact_all (f ∷ fs) text =
    let redacted = redact_all fs text in
    take f.start redacted ++ (f.replacement ++ drop f.end redacted)

abbrev pub is_block : FindingAction → Bool
is_block FindingAction.block = true
is_block FindingAction.redact = false

-- The matches that `Scan` keeps.
unfoldable pub selected_findings : List Rule → Str → List Finding
unfolding matches_from sort_func compare_match select_from
selected_findings rules text =
    map (λ m. m.finding)
      (select_from (negsuc 0) (sort_func compare_match (matches_from 0 rules text)))

unfoldable pub scan : List Rule → Str → ScanResult
unfolding selected_findings redact_all
scan rules body =
    if is_empty (matches_from 0 rules body)
    then record { findings = []; redacted_body = body; has_blocking_findings = false }
    else record {
      findings = selected_findings rules body;
      redacted_body = redact_all (selected_findings rules body) body;
      has_blocking_findings = any (λ f. is_block f.action) (selected_findings rules body);
    }
