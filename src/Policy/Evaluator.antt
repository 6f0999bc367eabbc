-- ===== src/Policy/Evaluator.antt =====
-- internal/policy/evaluator.go. The decoding of a body into a request, by encoding/json, is the
-- parameter `decode`: `none` is an error.
pub mod Verdicts
mod Tests
use rillan.Base.{
  Bool, true, false, not, ◌&&◌, if◌then◌else◌, Option, none, some, List, [], is_empty, Str, lit,
  str_eq, normalize_string,
}
use rillan.Config.{open_source, trade_secret}
use rillan.Policy.Types.{
  Verdict, EvaluationPhase, DecisionSource, Sensitivity, Finding, ScanResult, IntentClassification,
  RuntimePolicy, PolicyTrace, RetrievalPlan, EvaluationInput, EvaluationResult,
  merge_runtime_policy,
}

abbrev pub is_trade_secret : Option IntentClassification → Bool
is_trade_secret none = false
is_trade_secret (some c) = elim c.sensitivity [ Sensitivity.trade_secret ↦ true | _ ↦ false ]

abbrev pub effective_phase : EvaluationPhase → EvaluationPhase
effective_phase EvaluationPhase.unset = EvaluationPhase.egress
effective_phase EvaluationPhase.preflight = EvaluationPhase.preflight
effective_phase EvaluationPhase.egress = EvaluationPhase.egress

abbrev pub is_preflight : EvaluationPhase → Bool
is_preflight EvaluationPhase.preflight = true
is_preflight _ = false

-- The classification of the project, trimmed and in lower case, open source if it is empty.
unfoldable pub project_classification : RuntimePolicy → Str
project_classification runtime =
    let classification = normalize_string runtime.project.classification in
    if is_empty classification then open_source else classification

module _ {Request : Type 0} where
  -- The runtime policy in force: a zero one is replaced by that of the project.
  unfoldable pub runtime_policy : EvaluationInput Request → RuntimePolicy
  unfolding merge_runtime_policy
  runtime_policy input =
      if is_empty input.runtime.project.name && is_empty input.runtime.project.classification
      then merge_runtime_policy none input.project
      else input.runtime

  module _ (decode : Str → Request → Option Request) where
    -- `syncRequestFromBody`
    unfoldable pub sync_request_from_body :
        EvaluationResult Request → Str → Option (EvaluationResult Request)
    sync_request_from_body result body = elim (decode body result.request) [
      | none ↦ none
      | some request ↦ some (record result { request = request; body = body })
    ]

    -- The early return of a branch that syncs only under a test.
    abbrev pub return_synced :
        Bool → EvaluationResult Request → Str → Option (EvaluationResult Request)
    return_synced sync result body =
        if sync then sync_request_from_body result body else some result

    unfoldable pub evaluate : EvaluationInput Request → Option (EvaluationResult Request)
    unfolding sync_request_from_body
    evaluate input =
        let runtime = runtime_policy input in
        let phase = effective_phase input.phase in
        let body = input.scan.redacted_body in
        let has_body = not (is_empty body) in
        let has_findings = not (is_empty input.scan.findings) in
        let result : EvaluationResult Request = record {
          verdict = Verdict.allow;
          reason = lit "policy_allow";
          request = input.request;
          body = input.body;
          findings = input.scan.findings;
          trace = record { phase = phase; route_source = DecisionSource.default };
          retrieval = record {
            apply = false;
            top_k_cap = 0;
            max_context_chars = 0;
            source = DecisionSource.default;
          };
        } in
        if input.scan.has_blocking_findings
        then return_synced has_body
            (record result {
              verdict = Verdict.block;
              reason = lit "secret_scan_block";
              trace = record { phase = phase; route_source = DecisionSource.scan };
            })
            body
        else if runtime.force_local_for_trade_secret && is_trade_secret input.classification
        then return_synced (has_body && has_findings)
            (record result {
              verdict = Verdict.local_only;
              reason = lit "system_trade_secret";
              trace = record { phase = phase; route_source = runtime.trace.force_local_source };
            })
            body
        else if is_trade_secret input.classification
        then return_synced (has_body && has_findings)
            (record result {
              verdict = Verdict.local_only;
              reason = lit "classifier_trade_secret";
              trace = record { phase = phase; route_source = DecisionSource.classifier };
            })
            body
        else if str_eq (project_classification runtime) trade_secret
        then return_synced (has_body && has_findings)
            (record result {
              verdict = Verdict.local_only;
              reason = lit "project_trade_secret";
              trace = record {
                phase = phase;
                route_source = runtime.trace.project_classification_source;
              };
            })
            body
        else if has_findings
        then sync_request_from_body
            (record result {
              verdict = Verdict.redact;
              reason = lit "secret_scan_redact";
              trace = record { phase = phase; route_source = DecisionSource.scan };
            })
            body
        else if is_preflight phase && runtime.minimize_remote_context
        then some (record result {
          retrieval = record {
            apply = true;
            top_k_cap = runtime.remote_retrieval_top_k;
            max_context_chars = runtime.remote_max_context_chars;
            source = DecisionSource.default;
          };
        })
        else some result
