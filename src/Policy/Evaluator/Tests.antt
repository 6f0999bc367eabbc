-- ===== src/Policy/Evaluator/Tests.antt =====
-- Evaluations at concrete inputs; the request is a number, and no body but the empty one fails to
-- decode.
use rillan.Base.{
  ℕ, ◌≡◌, ◌≢◌, ◌↔◌, refl, true, false, Option, none, some, [], ◌∷◌, Str, lit, str_eq,
  normalize_string,
}
use rillan.Config.{ProjectConfig}
use rillan.Policy.Types.{
  Verdict, EvaluationPhase, FindingAction, Finding, ScanResult, EvaluationInput, EvaluationResult,
  merge_runtime_policy,
}
use rillan.Policy.Evaluator.{
  evaluate, runtime_policy, project_classification, is_preflight, effective_phase,
}
use rillan.Policy.Evaluator.Verdicts.{
  IsTradeSecret, evaluate-verdict, syncs, evaluate-body, evaluate-eq-none_iff, evaluate-retrieval,
}

evaluation : Unit {0}
unfolding evaluate runtime_policy merge_runtime_policy project_classification lit str_eq
    normalize_string
evaluation = tt

abbrev project_of : Str → ProjectConfig
project_of classification = record {
  name = lit "p";
  classification = classification;
  sources = [];
  routing = record { default = []; task_types = [] };
  providers = record { llm_default = []; llm_allowed = []; mcp_enabled = [] };
  modules_enabled = [];
  skills_enabled = [];
  system_prompt = [];
  instructions = [];
}

abbrev decode : Str → ℕ → Option ℕ
decode [] old = none
decode (b ∷ body) old = some b

abbrev finding : Finding
finding = record {
  rule_id = [];
  category = [];
  action = FindingAction.redact;
  start = 0;
  end = 1;
  length = 1;
  replacement = [];
}

abbrev input_of : Str → ScanResult → EvaluationInput ℕ
input_of classification scan = record {
  project = project_of classification;
  runtime = merge_runtime_policy none (project_of classification);
  request = 7;
  body = lit "body";
  scan = scan;
  classification = none;
  phase = EvaluationPhase.preflight;
}

abbrev found : ScanResult
found = record {
  findings = finding ∷ [];
  redacted_body = lit "*ody";
  has_blocking_findings = false;
}

abbrev clean : ScanResult
clean = record { findings = []; redacted_body = lit "body"; has_blocking_findings = false }

abbrev redacting : EvaluationInput ℕ
redacting = input_of (lit "internal") found

abbrev open_input : EvaluationInput ℕ
open_input = input_of (lit "internal") clean

-- The results, as the evaluation computes them.
redacted_result : (r : EvaluationResult ℕ) × (evaluate decode redacting ≡ some r) × (r.request ≡ 42)
unfolding evaluation
redacted_result = (_, refl, refl)

open_result :
    (r : EvaluationResult ℕ) × (evaluate decode open_input ≡ some r) × (r.retrieval.apply ≡ true)
unfolding evaluation
open_result = (_, refl, refl)

secret_verdict :
    (r : EvaluationResult ℕ) × (evaluate decode (input_of (lit " Trade_Secret") found) ≡ some r)
    × (r.verdict ≡ Verdict.local_only)
unfolding evaluation
secret_verdict = (_, refl, refl)

evaluate-verdict_example :
    let r = secret_verdict.0 in
    let input = input_of (lit " Trade_Secret") found in
    ((r.verdict ≡ Verdict.block) ↔ (input.scan.has_blocking_findings ≡ true))
    × ((r.verdict ≡ Verdict.local_only)
        ↔ ((input.scan.has_blocking_findings ≡ false) × IsTradeSecret input))
    × ((r.verdict ≡ Verdict.redact) ↔ (
        (input.scan.has_blocking_findings ≡ false)
        × (¬ IsTradeSecret input)
        × (input.scan.findings ≢ [])))
    × ((r.verdict ≡ Verdict.allow) ↔ (
        (input.scan.has_blocking_findings ≡ false)
        × (¬ IsTradeSecret input)
        × (input.scan.findings ≡ [])))
evaluate-verdict_example =
    evaluate-verdict decode (input_of (lit " Trade_Secret") found) secret_verdict.0 secret_verdict.1

evaluate-body_example :
    let r = redacted_result.0 in
    (syncs decode redacting ≡ true
      → (r.body ≡ redacting.scan.redacted_body)
        × (decode redacting.scan.redacted_body redacting.request ≡ some r.request))
    × (syncs decode redacting ≡ false → (r.body ≡ redacting.body) × (r.request ≡ redacting.request))
    × (r.findings ≡ redacting.scan.findings)
evaluate-body_example = evaluate-body decode redacting redacted_result.0 redacted_result.1

evaluate-eq-none_iff_example : (evaluate decode redacting ≡ none) ↔ (
    (syncs decode redacting ≡ true)
    × (decode redacting.scan.redacted_body redacting.request ≡ none))
evaluate-eq-none_iff_example = evaluate-eq-none_iff decode redacting

retrieval_planned :
    let r = open_result.0 in
    (r.verdict ≡ Verdict.allow)
    × (is_preflight (effective_phase open_input.phase) ≡ true)
    × (r.retrieval.top_k_cap ≡ (runtime_policy open_input).remote_retrieval_top_k)
    × (r.retrieval.max_context_chars ≡ (runtime_policy open_input).remote_max_context_chars)
retrieval_planned = evaluate-retrieval decode open_input open_result.0 open_result.1 open_result.2
