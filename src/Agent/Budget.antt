-- ===== src/Agent/Budget.antt =====
-- internal/agent/context_package.go and context_budget.go: the package of context that an agent
-- gets, cut to its budget. A slice with a negative end, which panics, is none.
mod Bounds
mod Tests
use rillan.Base.{
  ℕ, ◌-◌, leb, ℤ, pos, negsuc, pos_part, ltb_ℤ, Bool, true, false, if◌then◌else◌, ◌||◌, Option,
  none, some, List, ◌++◌, Str, lit, map, length, take, trim_space,
}

pub record SkillInvocation : Type 0 where
  pub kind : Str
  pub repo_root : Str
  pub paths : List Str
  pub query : Str
  pub db_path : Str
  pub staged_only : Bool

pub record TaskSection : Type 0 where
  pub goal : Str
  pub execution_mode : Str
  pub current_step : Str

pub record ConstraintsSection : Type 0 where
  pub repo_root : Str
  pub approval_required : Bool
  pub allowed_effects : List Str
  pub forbidden_effects : List Str

pub record EvidenceItem : Type 0 where
  pub kind : Str
  pub path : Str
  pub summary : Str
  pub ref : Str

pub record FactItem : Type 0 where
  pub key : Str
  pub value : Str

pub record OutputSchemaSection : Type 0 where
  pub kind : Str
  pub note : Str

pub record BudgetSection : Type 0 where
  pub max_evidence_items : ℤ
  pub max_facts : ℤ
  pub max_open_questions : ℤ
  pub max_working_memory_items : ℤ
  pub max_item_chars : ℤ

pub record PolicyTraceSection : Type 0 where
  pub phase : Str
  pub route_source : Str
  pub verdict : Str
  pub reason : Str

pub record ContextPackage : Type 0 where
  pub task : TaskSection
  pub constraints : ConstraintsSection
  pub skill_invocations : List SkillInvocation
  pub evidence : List EvidenceItem
  pub facts : List FactItem
  pub open_questions : List Str
  pub working_memory : List Str
  pub output_schema : OutputSchemaSection
  pub budget : BudgetSection
  pub policy_trace : PolicyTraceSection

abbrev pub suffix : Str
suffix = lit "...[truncated]"

unfoldable pub trim_text : Str → ℤ → Str
trim_text value max_chars =
    let trimmed = trim_space value in
    let room = pos_part max_chars in
    if ltb_ℤ max_chars (pos 1) || leb (length trimmed) room
    then trimmed
    else if leb room (length suffix)
    then take room trimmed
    else trim_space (take (room - length suffix) trimmed) ++ suffix

-- `items[:min(limit, len(items))]`
unfoldable pub head_of {ℓ} : {A : Type ℓ} → List A → ℤ → Option (List A)
head_of items (negsuc n) = none
head_of items (pos n) = some (if leb n (length items) then take n items else items)

abbrev pub trim_item : ℤ → EvidenceItem → EvidenceItem
trim_item max_chars item = record {
  kind = trim_text item.kind max_chars;
  path = trim_text item.path max_chars;
  summary = trim_text item.summary max_chars;
  ref = trim_text item.ref max_chars;
}

abbrev pub trim_fact : ℤ → FactItem → FactItem
trim_fact max_chars item = record {
  key = trim_text item.key max_chars;
  value = trim_text item.value max_chars;
}

-- The items within the limit, each cut to its own.
unfoldable pub trim_list {ℓ} : {A : Type ℓ} → (A → A) → List A → ℤ → Option (List A)
unfolding head_of
trim_list trim items limit = elim (head_of items limit) [
  | none ↦ none
  | some kept ↦ some (map trim kept)
]

unfoldable pub trim_evidence : List EvidenceItem → ℤ → ℤ → Option (List EvidenceItem)
unfolding trim_list
trim_evidence items limit max_chars = trim_list (trim_item max_chars) items limit

unfoldable pub trim_facts : List FactItem → ℤ → ℤ → Option (List FactItem)
unfolding trim_list
trim_facts items limit max_chars = trim_list (trim_fact max_chars) items limit

unfoldable pub trim_strings : List Str → ℤ → ℤ → Option (List Str)
unfolding trim_list
trim_strings items limit max_chars = trim_list (λ item. trim_text item max_chars) items limit

unfoldable pub apply_budget : ContextPackage → Option ContextPackage
unfolding trim_evidence trim_facts trim_strings
apply_budget pkg =
    let b = pkg.budget in
    let chars = b.max_item_chars in
    elim (trim_evidence pkg.evidence b.max_evidence_items chars) [
      | none ↦ none
      | some evidence ↦ elim (trim_facts pkg.facts b.max_facts chars) [
        | none ↦ none
        | some facts ↦ elim (trim_strings pkg.open_questions b.max_open_questions chars) [
          | none ↦ none
          | some questions ↦
              elim (trim_strings pkg.working_memory b.max_working_memory_items chars) [
                | none ↦ none
                | some memory ↦ some (record {
                  task = record {
                    goal = trim_text pkg.task.goal chars;
                    execution_mode = pkg.task.execution_mode;
                    current_step = trim_text pkg.task.current_step chars;
                  };
                  constraints = pkg.constraints;
                  skill_invocations = pkg.skill_invocations;
                  evidence = evidence;
                  facts = facts;
                  open_questions = questions;
                  working_memory = memory;
                  output_schema = record {
                    kind = pkg.output_schema.kind;
                    note = trim_text pkg.output_schema.note chars;
                  };
                  budget = b;
                  policy_trace = pkg.policy_trace;
                })
              ]
        ]
      ]
    ]
