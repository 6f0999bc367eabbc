-- ===== src/Safety.antt =====
-- How the policy and the routing of a chat request fit together, as `ServeHTTP` of
-- internal/httpapi/chat_completions_handler.go chains them: the verdict of the evaluation is the
-- policy verdict of the decision.
mod Tests
use mathlib.Core.List.{Memᴰ, head?}
use rillan.Base.{
  ◌≡◌, ◌≢◌, sym, ◌∙◌, subst, refl, Bool, true, Option, none, some, List, [], ◌∷◌, arith, Str,
  Bool-cases, Option-cases, inl, inr, false,
}
use rillan.Policy.{Verdict, EvaluationInput, EvaluationResult}
use rillan.Policy.Evaluator.{evaluate}
use rillan.Policy.Evaluator.Verdicts.{IsTradeSecret, evaluate-verdict}
use rillan.Routing.Types.{local, Candidate, DecisionInput}
use rillan.Routing.Decide.{decide}
use rillan.Routing.Admit.{IsAdmitted}
use rillan.Routing.Ranking.{ranked_iff, decide-selected}

mem_of_head {ℓ} : {A : Type ℓ} {a : A} (xs : List A) → head? xs ≡ some a → Memᴰ a xs
mem_of_head [] e = cc
mem_of_head (x ∷ xs) e = Memᴰ.head (cc)

-- The selected candidate is one of the input's, and is admitted.
pub selected-IsAdmitted :
    (input : DecisionInput) (c : Candidate)
    → (decide input).selected ≡ some c
    → Memᴰ c input.candidates × IsAdmitted input c
selected-IsAdmitted input c e =
    let m = mem_of_head (decide input).ranked (sym (decide-selected input) ∙ e) in
    let (n, a, _) = (ranked_iff input c).0 m in (n, a)

none_of_blocked :
    (route : DecisionInput) → route.policy_verdict ≡ Verdict.block → (decide route).selected ≡ none
none_of_blocked route b = elim (Option-cases (decide route).selected) [
  | inl e ↦ e
  | inr (c, e) ↦ absurd ((selected-IsAdmitted route c e).1.policy.0 b)
]

module _ {Request : Type 0} (decode : Str → Request → Option Request) where
  -- Where the decision takes its verdict from an evaluation that succeeds: a request that the
  -- classifier or the project calls a trade secret is never routed to a remote candidate, and one
  -- in which the scan found something that blocks is not routed at all.
  pub secret_stays_local :
      (input : EvaluationInput Request) (r : EvaluationResult Request) (route : DecisionInput)
      → evaluate decode input ≡ some r
      → route.policy_verdict ≡ r.verdict
      → (IsTradeSecret input
          → (c : Candidate) → (decide route).selected ≡ some c
          → c.location ≡ local)
        × (input.scan.has_blocking_findings ≡ true → (decide route).selected ≡ none)
  secret_stays_local input r route e v = (
    λ secret c chosen.
        let (_, a) = selected-IsAdmitted route c chosen in
        elim (Bool-cases input.scan.has_blocking_findings) [
          | inl blocks ↦ absurd (a.policy.0 (v ∙ (blocked blocks)))
          | inr clear ↦ a.policy.1 (v ∙ (evaluate-verdict decode input r e).1.1 (clear, secret))
        ],
    λ blocks. none_of_blocked route (v ∙ blocked blocks),
  )
    where
      blocked : input.scan.has_blocking_findings ≡ true → r.verdict ≡ Verdict.block
      blocked = (evaluate-verdict decode input r e).0.1
