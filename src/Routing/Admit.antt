-- ===== src/Routing/Admit.antt =====
-- When a candidate is eligible: the three tests of `Decide`, stated without its trace.
use mathlib.Core.Bool.{and-eq-true_iff}
use rillan.Base.{
  ◌≡◌, ◌≢◌, ◌↔◌, true, ◌&&◌, List, [], ◌∷◌, map, is_empty, All, arith, Str, lit, str_mem,
  str_eq_iff, normalize_string,
}
use rillan.Config.{prefer_local, prefer_cloud, prefer_local_only}
use rillan.Policy.{Verdict}
use rillan.Routing.Types.{local, Candidate, DecisionInput}
use rillan.Routing.Decide.{
  policy_eligible, missing_capabilities, normalize_capabilities, route_preference_score,
  normalize_preference, resolve_preference, evaluate_candidate,
}

-- Every required capability is, trimmed and in lower case, one of those available.
abbrev pub IsCapable : List Str → List Str → Type 0
IsCapable required available =
    All (λ capability. str_mem capability (map normalize_string available) ≡ true) required

missing_iff :
    (required available : List Str)
    → (is_empty (missing_capabilities required available) ≡ true) ↔ IsCapable required available
unfolding missing_capabilities
missing_iff [] available = ground arith
missing_iff (c ∷ required) available = ground (arith, missing_iff required available)

abbrev pub IsPolicyEligible : Verdict → Candidate → Type 0
IsPolicyEligible verdict c =
    (verdict ≢ Verdict.block) × (verdict ≡ Verdict.local_only → c.location ≡ local)

policy_eligible_iff :
    (verdict : Verdict) (c : Candidate)
    → ((policy_eligible verdict c).0 ≡ true) ↔ IsPolicyEligible verdict c
unfolding policy_eligible
policy_eligible_iff Verdict.allow c = ground arith
policy_eligible_iff Verdict.redact c = ground arith
policy_eligible_iff Verdict.block c = ground arith
policy_eligible_iff Verdict.local_only c = ground arith

abbrev pub IsPreferred : Str → Candidate → Type 0
IsPreferred preference c = normalize_preference preference ≡ prefer_local_only → c.location ≡ local

prefer_distinct : (prefer_local_only ≢ prefer_local) × (prefer_local_only ≢ prefer_cloud)
unfolding lit
prefer_distinct = ground arith

IsPreferred-iff :
    (preference : Str) (c : Candidate)
    → ((route_preference_score preference c).1 ≡ true) ↔ IsPreferred preference c
unfolding route_preference_score
IsPreferred-iff preference c = ground (
  arith,
  str_eq_iff (normalize_preference preference) prefer_local,
  str_eq_iff (normalize_preference preference) prefer_cloud,
  str_eq_iff (normalize_preference preference) prefer_local_only,
  prefer_distinct,
)

-- What the policy, the required capabilities and the route preference ask of a candidate.
pub record IsAdmitted (input : DecisionInput) (c : Candidate) : Type 0 where
  pub policy : IsPolicyEligible input.policy_verdict c
  pub capable : IsCapable (normalize_capabilities input.required_capabilities) c.capabilities
  pub preferred : IsPreferred (resolve_preference input.project input.action).preference c

pub evaluate_candidate-candidate :
    (input : DecisionInput) (c : Candidate) → (evaluate_candidate input c).candidate ≡ c
unfolding evaluate_candidate
evaluate_candidate-candidate input c = ground arith

-- The test that the loop of `Decide` makes of a candidate, in the order of the source.
eligible_tests :
    (input : DecisionInput) (c : Candidate)
    → (evaluate_candidate input c).trace.eligible ≡ (
        (policy_eligible input.policy_verdict c).0
        && (is_empty (
              missing_capabilities
                (normalize_capabilities input.required_capabilities)
                c.capabilities)
            && (route_preference_score
                (resolve_preference input.project input.action).preference
                c).1))
unfolding evaluate_candidate
eligible_tests input c = ground arith

pub eligible_iff :
    (input : DecisionInput) (c : Candidate)
    → ((evaluate_candidate input c).trace.eligible ≡ true) ↔ IsAdmitted input c
eligible_iff input c = (to, from)
  where
    to : (evaluate_candidate input c).trace.eligible ≡ true → IsAdmitted input c
    to h =
        let (p, rest) = (and-eq-true_iff _ _).0 (rw (eligible_tests input c) at h) in
        let (q, r) = (and-eq-true_iff _ _).0 rest in
        record {
          policy = (policy_eligible_iff input.policy_verdict c).0 p;
          capable = (missing_iff _ c.capabilities).0 q;
          preferred = (IsPreferred-iff _ c).0 r;
        }

    from : IsAdmitted input c → (evaluate_candidate input c).trace.eligible ≡ true
    from a = rw (
      eligible_tests input c,
      (policy_eligible_iff input.policy_verdict c).1 a.policy,
      (missing_iff _ c.capabilities).1 a.capable,
      (IsPreferred-iff _ c).1 a.preferred,
    )
