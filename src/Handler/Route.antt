-- ===== src/Handler/Route.antt =====
-- `resolveRoute` and `availableRouteCandidates`.
pub mod Routed
use rillan.Base.{
  Bool, true, false, not, ◌&&◌, if◌then◌else◌, Option, none, some, List, [], ◌∷◌, ◌⊎◌, inl, inr,
  map, keep, is_empty, Str, lit,
}
use rillan.Policy.{ActionType, general_qa, Verdict, IntentClassification}
use rillan.Providers.{HostError, Host, Provider, provider}
use rillan.Routing.Types.{Candidate, DecisionInput, Decision}
use rillan.Routing.Decide.{decide}
use rillan.Routing.Status.{CandidateStatus}
use rillan.Handler.Types.{ChatRuntime, Selection, provider_name}

pub data RouteError : Type 0 where
  no_local no_eligible : RouteError
  hosting : HostError → RouteError

-- Whether the host, where there is one, serves a candidate.
abbrev pub serves : Option Host → Candidate → Bool
serves none c = true
serves (some h) c = elim (provider h c.id) [ inl err ↦ false | inr p ↦ true ]

-- The action of a classification that names one.
abbrev pub action_of : Option IntentClassification → ActionType
action_of none = general_qa
action_of (some c) = if is_empty c.action then general_qa else c.action

abbrev pub is_local_only : Verdict → Bool
is_local_only Verdict.local_only = true
is_local_only _ = false

-- What is left once the decision is made.
unfoldable pub select_provider : Host → Decision → Selection × Option RouteError
select_provider host decision = elim decision.selected [
  | none ↦ (
    record { provider = none; provider_id = []; candidate = none; decision = some decision },
    some RouteError.no_eligible,
  )
  | some c ↦ elim (provider host c.id) [
    | inl err ↦ (
      record { provider = none; provider_id = []; candidate = none; decision = some decision },
      some (RouteError.hosting err),
    )
    | inr p ↦ (
      record {
        provider = some p;
        provider_id = c.id;
        candidate = some c;
        decision = some decision;
      },
      none,
    )
  ]
]

module _ {E : Type 0} {F : Type 0} where
  -- The statuses count if there are any; else the candidates of the catalog do.
  unfoldable pub available_route_candidates : ChatRuntime E F → List Candidate
  available_route_candidates runtime =
      if not (is_empty runtime.route_status.candidates)
      then map (λ (s : CandidateStatus). s.candidate)
          (keep (λ s. s.available && serves runtime.provider_host s.candidate)
            runtime.route_status.candidates)
      else keep (serves runtime.provider_host) runtime.route_catalog.candidates

  abbrev pub decision_input :
      ChatRuntime E F → Str → List Str → Verdict → Option IntentClassification → DecisionInput
  decision_input runtime requested_model required verdict classification = record {
    requested_model = requested_model;
    required_capabilities = required;
    action = action_of classification;
    project = runtime.project;
    policy_verdict = verdict;
    candidates = available_route_candidates runtime;
  }

  -- The selection of a runtime that hosts no providers.
  abbrev pub single : ChatRuntime E F → Selection
  single runtime = record {
    provider = some runtime.provider;
    provider_id = provider_name runtime.provider;
    candidate = none;
    decision = none;
  }

  unfoldable pub resolve_route :
      ChatRuntime E F
      → Str
      → List Str
      → Verdict
      → Option IntentClassification
      → Selection × Option RouteError
  unfolding select_provider
  resolve_route runtime requested_model required verdict classification =
      elim runtime.provider_host [
        | none ↦ (single runtime, if is_local_only verdict then some RouteError.no_local else none)
        | some host ↦
            select_provider host
              (decide (decision_input runtime requested_model required verdict classification))
      ]
