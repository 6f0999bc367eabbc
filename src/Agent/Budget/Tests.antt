-- ===== src/Agent/Budget/Tests.antt =====
-- A package whose lists and texts exceed its budget.
use rillan.Base.{
  ◌≡◌, ◌↔◌, ◌⊎◌, refl, ℤ, pos, negsuc, ltb_ℤ, true, none, some, [], ◌∷◌, lit, trim_space,
}
use rillan.Agent.Budget.{
  BudgetSection, ContextPackage, trim_text, head_of, trim_list, trim_evidence, trim_facts,
  trim_strings, apply_budget,
}
use rillan.Agent.Budget.Bounds.{IsBudgeted, apply_budget-IsBudgeted}

cutting : Unit {0}
unfolding apply_budget trim_evidence trim_facts trim_strings trim_list head_of trim_text lit
    trim_space
cutting = tt

abbrev package_for : BudgetSection → ContextPackage
package_for budget = record {
  task = record {
    goal = lit " a goal that is far too long";
    execution_mode = [];
    current_step = [];
  };
  constraints = record {
    repo_root = [];
    approval_required = true;
    allowed_effects = [];
    forbidden_effects = [];
  };
  skill_invocations = [];
  evidence = [];
  facts = record { key = lit "a"; value = lit "b" } ∷ record { key = []; value = [] } ∷ [];
  open_questions = lit "why" ∷ lit "how" ∷ [];
  working_memory = [];
  output_schema = record { kind = []; note = [] };
  budget = budget;
  policy_trace = record { phase = []; route_source = []; verdict = []; reason = [] };
}

abbrev budget_of : ℤ → BudgetSection
budget_of questions = record {
  max_evidence_items = pos 1;
  max_facts = pos 1;
  max_open_questions = questions;
  max_working_memory_items = pos 0;
  max_item_chars = pos 20;
}

cut_goal : trim_text (lit " a goal that is far too long") (pos 20) ≡ lit "a goal...[truncated]"
unfolding cutting
cut_goal = refl

negative : apply_budget (package_for (budget_of (negsuc 0))) ≡ none
unfolding cutting
negative = refl

apply_budget-IsBudgeted_example :
    ((out : ContextPackage)
      → apply_budget (package_for (budget_of (pos 1))) ≡ some out
      → IsBudgeted (package_for (budget_of (pos 1))) out)
    × ((apply_budget (package_for (budget_of (pos 1))) ≡ none) ↔ (
        (ltb_ℤ (pos 1) (pos 0) ≡ true)
        ⊎ ((ltb_ℤ (pos 1) (pos 0) ≡ true)
            ⊎ ((ltb_ℤ (pos 1) (pos 0) ≡ true) ⊎ (ltb_ℤ (pos 0) (pos 0) ≡ true)))))
apply_budget-IsBudgeted_example = apply_budget-IsBudgeted (package_for (budget_of (pos 1))) refl
