-- ===== src/Policy/Evaluator/Verdicts.antt =====
-- What an evaluation decides, what body and request it hands on, and when it fails.
use rillan.Base.{
  ◌≡◌, ◌≢◌, ◌↔◌, ◌⊎◌, Bool, true, false, not, ◌&&◌, ◌||◌, if◌then◌else◌, Option, none, some, [],
  is_empty, arith, Str, str_eq, str_eq_iff,
}
use rillan.Config.{trade_secret}
use rillan.Policy.Types.{Verdict, EvaluationInput, EvaluationResult}
use rillan.Policy.Evaluator.{
  is_trade_secret, is_preflight, effective_phase, runtime_policy, project_classification, evaluate,
}

abbrev verdict_of : Bool → Bool → Bool → Verdict
verdict_of true secret found = Verdict.block
verdict_of false true found = Verdict.local_only
verdict_of false false true = Verdict.redact
verdict_of false false false = Verdict.allow

module _ {Request : Type 0} where
  -- The classifier or the project calls the request a trade secret.
  abbrev pub IsTradeSecret : EvaluationInput Request → Type 0
  IsTradeSecret input =
      (is_trade_secret input.classification ≡ true)
      ⊎ (project_classification (runtime_policy input) ≡ trade_secret)

  abbrev trade_secret? : EvaluationInput Request → Bool
  trade_secret? input =
      is_trade_secret input.classification
      || str_eq (project_classification (runtime_policy input)) trade_secret

  IsTradeSecret-iff :
      (input : EvaluationInput Request) → (trade_secret? input ≡ true) ↔ IsTradeSecret input
  IsTradeSecret-iff input =
      ground (arith, str_eq_iff (project_classification (runtime_policy input)) trade_secret)

  abbrev found? : EvaluationInput Request → Bool
  found? input = not (is_empty input.scan.findings)

  module _ (decode : Str → Request → Option Request) where
    verdict_lem :
        (input : EvaluationInput Request) (r : EvaluationResult Request)
        → evaluate decode input ≡ some r
        → r.verdict
          ≡ verdict_of input.scan.has_blocking_findings (trade_secret? input) (found? input)
    unfolding evaluate
    verdict_lem input r e = ground arith

    -- An evaluation that succeeds blocks exactly if the scan found something that blocks.
    -- Otherwise it keeps the request local exactly if the classifier or the project calls it a
    -- trade secret, whatever else the scan found, else redacts exactly if the scan found anything,
    -- else allows.
    pub evaluate-verdict :
        (input : EvaluationInput Request) (r : EvaluationResult Request)
        → evaluate decode input ≡ some r
        → ((r.verdict ≡ Verdict.block) ↔ (input.scan.has_blocking_findings ≡ true))
          × ((r.verdict ≡ Verdict.local_only)
              ↔ ((input.scan.has_blocking_findings ≡ false) × IsTradeSecret input))
          × ((r.verdict ≡ Verdict.redact) ↔ (
              (input.scan.has_blocking_findings ≡ false)
              × (¬ IsTradeSecret input)
              × (input.scan.findings ≢ [])))
          × ((r.verdict ≡ Verdict.allow) ↔ (
              (input.scan.has_blocking_findings ≡ false)
              × (¬ IsTradeSecret input)
              × (input.scan.findings ≡ [])))
    evaluate-verdict input r e = grind (arith, verdict_lem input r e, IsTradeSecret-iff input)

    -- Whether the branch that is taken replaces the request by the redacted one.
    abbrev pub syncs : EvaluationInput Request → Bool
    syncs input =
        if input.scan.has_blocking_findings
        then not (is_empty input.scan.redacted_body)
        else found? input && (not (is_empty input.scan.redacted_body) || not (trade_secret? input))

    -- What an evaluation that succeeds sends on: with the redacted body goes the request decoded
    -- from it, and else the body and the request are those given. The findings are the scan's.
    pub evaluate-body :
        (input : EvaluationInput Request) (r : EvaluationResult Request)
        → evaluate decode input ≡ some r
        → (syncs input ≡ true
            → (r.body ≡ input.scan.redacted_body)
              × (decode input.scan.redacted_body input.request ≡ some r.request))
          × (syncs input ≡ false → (r.body ≡ input.body) × (r.request ≡ input.request))
          × (r.findings ≡ input.scan.findings)
    unfolding evaluate
    evaluate-body input r e = ground arith

    -- An evaluation fails exactly if it has to replace the request and the redacted body cannot
    -- be decoded.
    pub evaluate-eq-none_iff :
        (input : EvaluationInput Request)
        → (evaluate decode input ≡ none)
          ↔ ((syncs input ≡ true) × (decode input.scan.redacted_body input.request ≡ none))
    unfolding evaluate
    evaluate-eq-none_iff input = ground arith

    -- An evaluation that succeeds and caps the retrieval is a preflight that allows the request,
    -- and its caps are those of the runtime policy.
    pub evaluate-retrieval :
        (input : EvaluationInput Request) (r : EvaluationResult Request)
        → evaluate decode input ≡ some r
        → r.retrieval.apply ≡ true
        → (r.verdict ≡ Verdict.allow)
          × (is_preflight (effective_phase input.phase) ≡ true)
          × (r.retrieval.top_k_cap ≡ (runtime_policy input).remote_retrieval_top_k)
          × (r.retrieval.max_context_chars ≡ (runtime_policy input).remote_max_context_chars)
    unfolding evaluate
    evaluate-retrieval input r e h = ground arith
