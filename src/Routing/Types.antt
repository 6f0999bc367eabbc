-- ===== src/Routing/Types.antt =====
-- internal/routing/types.go: candidates, the input of a decision, and its trace.
use rillan.Base.{ℕ, Str, Bool, List, Option}
use rillan.Config.{ProjectConfig}
use rillan.Policy.{ActionType, Verdict}

pub data Location : Type 0 where
  local remote : Location

pub data PreferenceSource : Type 0 where
  default project_default task_type : PreferenceSource

pub record ResolvedPreference : Type 0 where
  pub preference : Str
  pub source : PreferenceSource

pub record Candidate : Type 0 where
  pub id : Str
  pub backend : Str
  pub preset : Str
  pub transport : Str
  pub endpoint : Str
  pub default_model : Str
  pub model_pins : List Str
  pub capabilities : List Str
  pub location : Location

pub record Catalog : Type 0 where
  pub candidates : List Candidate
  pub by_id : List (Str × Candidate)
  pub allowed : Bool

pub record DecisionInput : Type 0 where
  pub requested_model : Str
  pub required_capabilities : List Str
  pub action : ActionType
  pub project : ProjectConfig
  pub policy_verdict : Verdict
  pub candidates : List Candidate

pub record CandidateTrace : Type 0 where
  pub id : Str
  pub location : Location
  pub eligible : Bool
  pub rejected : Bool
  pub selected : Bool
  pub reason : Str
  pub model_match : Bool
  pub missing_capabilities : List Str
  pub preference_score : ℕ
  pub task_strength : ℕ

pub record DecisionTrace : Type 0 where
  pub policy_verdict : Verdict
  pub model_target : Str
  pub model_match : Str
  pub required_capabilities : List Str
  pub preference : Str
  pub preference_source : PreferenceSource
  pub candidates : List CandidateTrace

pub record Decision : Type 0 where
  pub preference : ResolvedPreference
  pub selected : Option Candidate
  pub ranked : List Candidate
  pub trace : DecisionTrace

-- `candidateState` of decision.go
pub record CandidateState : Type 0 where
  pub candidate : Candidate
  pub trace : CandidateTrace
