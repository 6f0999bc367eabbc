-- ===== src/Agent/Budget/Bounds.antt =====
-- What is left of a package keeps to the budget.
use mathlib.Core.Option.{some-injective}
use rillan.Base.{
  if◌then◌else◌, length-take, ◌≤◌, ◌-◌, ◌≡◌, subst, ℤ, pos, negsuc, pos_part, ltb_ℤ, true, false,
  Option, none, some, List, [], ◌∷◌, arith, Str, All, map, length, take, leb, length-take-le,
  length-append, length-trim_space-le, length-map, trim_space, Option-cases, inl, inr, ◌⊎◌, ◌↔◌,
}
use rillan.Agent.Budget.{
  EvidenceItem, FactItem, ContextPackage, trim_text, suffix, head_of, trim_item, trim_fact,
  trim_list, trim_evidence, trim_facts, trim_strings, apply_budget,
}

length-trim_text-le :
    (value : Str) (max_chars : ℤ)
    → ltb_ℤ max_chars (pos 1) ≡ false
    → length (trim_text value max_chars) ≤ pos_part max_chars
unfolding trim_text
length-trim_text-le value max_chars h =
    let room = pos_part max_chars in
    let trimmed = trim_space value in
    let cut = take (room - length suffix) trimmed in
    ground (
      arith,
      h,
      length-take-le room trimmed,
      length-take-le (room - length suffix) trimmed,
      length-trim_space-le cut,
      length-append (trim_space cut) suffix,
    )

All-map {ℓ} :
    {A : Type ℓ} (f : A → A) (P : A → Type 0) (p : (a : A) → P (f a)) (items : List A)
    → All P (map f items)
All-map f P p [] = tt
All-map f P p (a ∷ items) = (p a, All-map f P p items)

trim_list-bounded {ℓ} :
    {A : Type ℓ} (trim : A → A) (P : A → Type 0) (p : (a : A) → P (trim a)) (items : List A)
    (limit : ℤ) (kept : List A)
    → trim_list trim items limit ≡ some kept
    → (length kept ≤ pos_part limit) × (length kept ≤ length items) × All P kept
unfolding trim_list head_of
trim_list-bounded trim P p items (negsuc n) kept e = cc
trim_list-bounded trim P p items (pos n) kept e =
    let head = if leb n (length items) then take n items else items in
    subst (λ k. (length k ≤ n) × (length k ≤ length items) × All P k) (some-injective _ _ e)
      (
        ground (arith, length-map trim head, length-take n items),
        ground (arith, length-map trim head, length-take n items),
        All-map trim P p head,
      )

trim_list-none_iff {ℓ} :
    {A : Type ℓ} (trim : A → A) (items : List A) (limit : ℤ)
    → (trim_list trim items limit ≡ none) ↔ (ltb_ℤ limit (pos 0) ≡ true)
unfolding trim_list head_of
trim_list-none_iff trim items (negsuc n) = ground arith
trim_list-none_iff trim items (pos n) = ground arith

-- A text within a limit.
abbrev pub Within : ℤ → Str → Type 0
Within max_chars text = length text ≤ pos_part max_chars

abbrev EvidenceWithin : ℤ → EvidenceItem → Type 0
EvidenceWithin max_chars item =
    Within max_chars item.kind
    × Within max_chars item.path
    × Within max_chars item.summary
    × Within max_chars item.ref

abbrev FactWithin : ℤ → FactItem → Type 0
FactWithin max_chars item = Within max_chars item.key × Within max_chars item.value

-- The lists of a package are no longer than its budget says, nor than a package they were cut
-- from, and the texts in them are within the budget's length.
pub record IsBudgeted (original pkg : ContextPackage) : Type 0 where
  pub evidence_count : length pkg.evidence ≤ pos_part pkg.budget.max_evidence_items
  pub evidence_of : length pkg.evidence ≤ length original.evidence
  pub evidence : All (EvidenceWithin pkg.budget.max_item_chars) pkg.evidence
  pub fact_count : length pkg.facts ≤ pos_part pkg.budget.max_facts
  pub fact_of : length pkg.facts ≤ length original.facts
  pub facts : All (FactWithin pkg.budget.max_item_chars) pkg.facts
  pub question_count : length pkg.open_questions ≤ pos_part pkg.budget.max_open_questions
  pub questions : All (Within pkg.budget.max_item_chars) pkg.open_questions
  pub memory_count : length pkg.working_memory ≤ pos_part pkg.budget.max_working_memory_items
  pub memory : All (Within pkg.budget.max_item_chars) pkg.working_memory
  pub goal : Within pkg.budget.max_item_chars pkg.task.goal
  pub current_step : Within pkg.budget.max_item_chars pkg.task.current_step
  pub note : Within pkg.budget.max_item_chars pkg.output_schema.note

-- The package that is put together from the lists that were cut.
abbrev cut_package :
    ContextPackage → List EvidenceItem → List FactItem → List Str → List Str → ContextPackage
cut_package pkg evidence facts questions memory =
    let chars = pkg.budget.max_item_chars in
    record {
      task = record {
        goal = trim_text pkg.task.goal chars;
        execution_mode = pkg.task.execution_mode;
        current_step = trim_text pkg.task.current_step chars;
      };
      constraints = pkg.constraints;
      skill_invocations = pkg.skill_invocations;
      evidence = evidence;
      facts = facts;
      open_questions = questions;
      working_memory = memory;
      output_schema = record {
        kind = pkg.output_schema.kind;
        note = trim_text pkg.output_schema.note chars;
      };
      budget = pkg.budget;
      policy_trace = pkg.policy_trace;
    }

module _ (pkg : ContextPackage) where
  abbrev evidence_cut : Option (List EvidenceItem)
  evidence_cut = trim_evidence pkg.evidence pkg.budget.max_evidence_items pkg.budget.max_item_chars

  abbrev facts_cut : Option (List FactItem)
  facts_cut = trim_facts pkg.facts pkg.budget.max_facts pkg.budget.max_item_chars

  abbrev questions_cut : Option (List Str)
  questions_cut =
      trim_strings pkg.open_questions pkg.budget.max_open_questions pkg.budget.max_item_chars

  abbrev memory_cut : Option (List Str)
  memory_cut =
      trim_strings pkg.working_memory pkg.budget.max_working_memory_items pkg.budget.max_item_chars

  lists_of_cut :
      (out : ContextPackage)
      → apply_budget pkg ≡ some out
      → (evidence : List EvidenceItem) × (facts : List FactItem) × (questions : List Str)
        × (memory : List Str) × (evidence_cut ≡ some evidence)
        × (facts_cut ≡ some facts)
        × (questions_cut ≡ some questions)
        × (memory_cut ≡ some memory)
        × (cut_package pkg evidence facts questions memory ≡ out)
  unfolding apply_budget
  lists_of_cut out e = elim (Option-cases evidence_cut) [
    | inl p ↦ absurd (ground (arith, e, p))
    | inr (evidence, p) ↦ elim (Option-cases facts_cut) [
      | inl q ↦ absurd (ground (arith, e, p, q))
      | inr (facts, q) ↦ elim (Option-cases questions_cut) [
        | inl r ↦ absurd (ground (arith, e, p, q, r))
        | inr (questions, r) ↦ elim (Option-cases memory_cut) [
          | inl m ↦ absurd (ground (arith, e, p, q, r, m))
          | inr (memory, m) ↦
              (evidence, facts, questions, memory, p, q, r, m, ground (arith, e, p, q, r, m))
        ]
      ]
    ]
  ]

  apply_budget-none_iff : (apply_budget pkg ≡ none) ↔ (
      (ltb_ℤ pkg.budget.max_evidence_items (pos 0) ≡ true)
      ⊎ ((ltb_ℤ pkg.budget.max_facts (pos 0) ≡ true)
          ⊎ ((ltb_ℤ pkg.budget.max_open_questions (pos 0) ≡ true)
              ⊎ (ltb_ℤ pkg.budget.max_working_memory_items (pos 0) ≡ true))))
  unfolding apply_budget trim_evidence trim_facts trim_strings
  apply_budget-none_iff =
      let chars = pkg.budget.max_item_chars in
      ground (
        arith,
        trim_list-none_iff (trim_item chars) pkg.evidence pkg.budget.max_evidence_items,
        trim_list-none_iff (trim_fact chars) pkg.facts pkg.budget.max_facts,
        trim_list-none_iff (λ t. trim_text t chars) pkg.open_questions
            pkg.budget.max_open_questions,
        trim_list-none_iff (λ t. trim_text t chars) pkg.working_memory
            pkg.budget.max_working_memory_items,
      )

-- Under a budget with a positive length of items: a package that is cut keeps to it, in the
-- number of items of each list and the length of each text. None is cut with a negative number
-- of items, which makes the code panic, and every other budget can be applied.
pub apply_budget-IsBudgeted :
    (pkg : ContextPackage)
    → ltb_ℤ pkg.budget.max_item_chars (pos 1) ≡ false
    → ((out : ContextPackage) → apply_budget pkg ≡ some out → IsBudgeted pkg out)
      × ((apply_budget pkg ≡ none) ↔ (
          (ltb_ℤ pkg.budget.max_evidence_items (pos 0) ≡ true)
          ⊎ ((ltb_ℤ pkg.budget.max_facts (pos 0) ≡ true)
              ⊎ ((ltb_ℤ pkg.budget.max_open_questions (pos 0) ≡ true)
                  ⊎ (ltb_ℤ pkg.budget.max_working_memory_items (pos 0) ≡ true)))))
unfolding trim_evidence trim_facts trim_strings
apply_budget-IsBudgeted pkg h = (
  λ out e.
      let chars = pkg.budget.max_item_chars in
      let fits = λ (text : Str). length-trim_text-le text chars h in
      let (evidence, facts, questions, memory, p, q, r, m, same) = lists_of_cut pkg out e in
      let (a, b, c) =
        trim_list-bounded (trim_item chars) (EvidenceWithin chars)
          (λ i. (fits i.kind, fits i.path, fits i.summary, fits i.ref)) pkg.evidence
          pkg.budget.max_evidence_items evidence p in
      let (d, f, g) =
        trim_list-bounded (trim_fact chars) (FactWithin chars) (λ i. (fits i.key, fits i.value))
          pkg.facts pkg.budget.max_facts facts q in
      let (i, _, j) =
        trim_list-bounded (λ t. trim_text t chars) (Within chars) fits pkg.open_questions
          pkg.budget.max_open_questions questions r in
      let (k, _, l) =
        trim_list-bounded (λ t. trim_text t chars) (Within chars) fits pkg.working_memory
          pkg.budget.max_working_memory_items memory m in
      subst (IsBudgeted pkg) same (record {
        evidence_count = a;
        evidence_of = b;
        evidence = c;
        fact_count = d;
        fact_of = f;
        facts = g;
        question_count = i;
        questions = j;
        memory_count = k;
        memory = l;
        goal = fits pkg.task.goal;
        current_step = fits pkg.task.current_step;
        note = fits pkg.output_schema.note;
      }),
  apply_budget-none_iff pkg,
)
