-- ===== src/Policy/Types.antt =====
-- internal/policy/types.go: verdicts, findings and the records of an evaluation. The string types
-- with a closed set of values are data types; an action is a text, since it is a key of a map.
use rillan.Base.{ℕ, Str, lit, Bool, true, false, is_empty, if◌then◌else◌, List, Option, none, some}
use rillan.Config.{ProjectConfig, SystemConfig}

pub data Verdict : Type 0 where
  allow redact block local_only : Verdict

-- `unset` is the empty text of the zero value.
pub data EvaluationPhase : Type 0 where
  unset preflight egress : EvaluationPhase

pub data DecisionSource : Type 0 where
  default project system classifier scan : DecisionSource

pub data FindingAction : Type 0 where
  redact block : FindingAction

abbrev pub ActionType : Type 0
ActionType = Str

abbrev pub code_diagnosis : ActionType
code_diagnosis = lit "code_diagnosis"

abbrev pub code_generation : ActionType
code_generation = lit "code_generation"

abbrev pub architecture : ActionType
architecture = lit "architecture"

abbrev pub explanation : ActionType
explanation = lit "explanation"

abbrev pub refactor : ActionType
refactor = lit "refactor"

abbrev pub review : ActionType
review = lit "review"

abbrev pub general_qa : ActionType
general_qa = lit "general_qa"

pub data Sensitivity : Type 0 where
  public internal proprietary trade_secret : Sensitivity

pub data ExecutionMode : Type 0 where
  direct plan_first : ExecutionMode

pub record Finding : Type 0 where
  pub rule_id : Str
  pub category : Str
  pub action : FindingAction
  pub start : ℕ
  pub end : ℕ
  pub length : ℕ
  pub replacement : Str

pub record ScanResult : Type 0 where
  pub findings : List Finding
  pub redacted_body : Str
  pub has_blocking_findings : Bool

-- The confidence is a float64, which no modelled function reads.
pub record IntentClassification : Type 0 where
  pub action : ActionType
  pub sensitivity : Sensitivity
  pub requires_context : Bool
  pub execution_mode : ExecutionMode

pub record RuntimePolicyTrace : Type 0 where
  pub project_classification_source : DecisionSource
  pub force_local_source : DecisionSource

pub record RuntimePolicy : Type 0 where
  pub project : ProjectConfig
  pub force_local_for_trade_secret : Bool
  pub minimize_remote_context : Bool
  pub remote_retrieval_top_k : ℕ
  pub remote_max_context_chars : ℕ
  pub trace : RuntimePolicyTrace

pub record PolicyTrace : Type 0 where
  pub phase : EvaluationPhase
  pub route_source : DecisionSource

pub record RetrievalPlan : Type 0 where
  pub apply : Bool
  pub top_k_cap : ℕ
  pub max_context_chars : ℕ
  pub source : DecisionSource

-- `Request` stands for chat.Request, whose content no policy function looks at.
pub record EvaluationInput (Request : Type 0) : Type 0 where
  pub project : ProjectConfig
  pub runtime : RuntimePolicy
  pub request : Request
  pub body : Str
  pub scan : ScanResult
  pub classification : Option IntentClassification
  pub phase : EvaluationPhase

pub record EvaluationResult (Request : Type 0) : Type 0 where
  pub verdict : Verdict
  pub reason : Str
  pub request : Request
  pub body : Str
  pub findings : List Finding
  pub trace : PolicyTrace
  pub retrieval : RetrievalPlan

-- Whether the system policy, where there is one, forces trade secrets to local models.
abbrev pub forces_local : Option SystemConfig → Bool
forces_local none = false
forces_local (some sys) = sys.policy.rules.force_local_for_trade_secret

-- `MergeRuntimePolicy`; `cloneProjectConfig` is the identity on values.
unfoldable pub merge_runtime_policy : Option SystemConfig → ProjectConfig → RuntimePolicy
merge_runtime_policy sys cfg = record {
  project = cfg;
  force_local_for_trade_secret = forces_local sys;
  minimize_remote_context = true;
  remote_retrieval_top_k = 2;
  remote_max_context_chars = 1200;
  trace = record {
    project_classification_source =
        if is_empty cfg.classification then DecisionSource.default else DecisionSource.project;
    force_local_source = if forces_local sys then DecisionSource.system else DecisionSource.default;
  };
}
