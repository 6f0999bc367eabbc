-- ===== src/Safety/Tests.antt =====
-- A trade secret that has one local and one remote backend to go to.
use rillan.Base.{
  ◌≡◌, refl, true, false, Option, none, some, [], ◌∷◌, ℕ, Str, lit, str_eq, normalize_string,
}
use rillan.Config.{ProjectConfig, prefer_auto}
use rillan.Policy.{
  Verdict, EvaluationPhase, EvaluationInput, EvaluationResult, merge_runtime_policy,
  code_generation,
}
use rillan.Policy.Evaluator.{evaluate, runtime_policy, project_classification}
use rillan.Policy.Evaluator.Verdicts.{IsTradeSecret}
use rillan.Routing.Types.{Location, local, Candidate, DecisionInput}
use rillan.Routing.Decide.{decide}
use rillan.Safety.{secret_stays_local}

abbrev project_secret : ProjectConfig
project_secret = record {
  name = lit "p";
  classification = lit "trade_secret";
  sources = [];
  routing = record { default = prefer_auto; task_types = [] };
  providers = record { llm_default = []; llm_allowed = []; mcp_enabled = [] };
  modules_enabled = [];
  skills_enabled = [];
  system_prompt = [];
  instructions = [];
}

abbrev decode : Str → ℕ → Option ℕ
decode body old = none

abbrev secret : EvaluationInput ℕ
secret = record {
  project = project_secret;
  runtime = merge_runtime_policy none project_secret;
  request = 7;
  body = lit "body";
  scan = record { findings = []; redacted_body = lit "body"; has_blocking_findings = false };
  classification = none;
  phase = EvaluationPhase.preflight;
}

abbrev candidate_at : Str → Location → Candidate
candidate_at id location = record {
  id = id;
  backend = [];
  preset = [];
  transport = [];
  endpoint = [];
  default_model = [];
  model_pins = [];
  capabilities = [];
  location = location;
}

evaluated :
    (r : EvaluationResult ℕ) × (evaluate decode secret ≡ some r) × (r.verdict ≡ Verdict.local_only)
unfolding evaluate runtime_policy merge_runtime_policy project_classification lit str_eq
    normalize_string
evaluated = (_, refl, refl)

abbrev route : DecisionInput
route = record {
  requested_model = [];
  required_capabilities = [];
  action = code_generation;
  project = project_secret;
  policy_verdict = evaluated.0.verdict;
  candidates =
      candidate_at (lit "far") Location.remote ∷ candidate_at (lit "near") Location.local ∷ [];
}

secret_stays_local_example :
    (IsTradeSecret secret → (c : Candidate) → (decide route).selected ≡ some c → c.location ≡ local)
    × (secret.scan.has_blocking_findings ≡ true → (decide route).selected ≡ none)
secret_stays_local_example = secret_stays_local decode secret evaluated.0 route evaluated.1 refl
