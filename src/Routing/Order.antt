-- ===== src/Routing/Order.antt =====
-- The order of the ranking, and that the decision does not depend on the order of the input.
use mathlib.Core.List.{Memᴰ, Permᴰ}
use mathlib.Core.List.Memᴰ
use mathlib.Core.List.Permᴰ
use rillan.Base.{
  ◌≡◌, ◌≢◌, sym, ap, ◌∙◌, subst, compare, Ordering, Bool, true, List, [], ◌∷◌, map, any, All, arith,
  eq_of_iff, normalize_string, str_compare, Bool-cases, inl, inr, none,
}
use mathlib.Core.Path.{fun_ext}
use rillan.Base.Member.{mem-perm, All-of_mem, mem_of_any, any_of_mem}
use rillan.Base.Sort.{sort_func}
use rillan.Base.Sort.Order.{
  IsOrder, true_first, then_by, compare_down-IsOrder, true_first-IsOrder, str_compare-IsOrder,
  on-IsOrder, then_by-IsOrder, eq_of_str_compare,
}
use rillan.Base.Sort.Laws.{IsSorted, sort_func-IsSorted, sort_func-eq_of_perm}
use rillan.Routing.Types.{Candidate, DecisionInput, CandidateState, Decision}
use rillan.Routing.Decide.{
  evaluate_candidate, reject_mismatch, compare_candidate_state, apply_model_affinity, sorted_states,
  decide, resolve_preference, route_preference_score, model_matches, task_strength, collect,
  model_match_label, normalize_capabilities,
}
use rillan.Routing.Ranking.{
  settle, settle-candidate, states_settled, sorted_states-perm, has_match, is_match, decide-ranking,
  ranking,
}

compare_candidate_state-IsOrder : IsOrder compare_candidate_state
unfolding compare_candidate_state
compare_candidate_state-IsOrder =
    then_by-IsOrder (on-IsOrder (λ (s : CandidateState). s.trace.eligible) true_first-IsOrder) (
      then_by-IsOrder
        (on-IsOrder (λ (s : CandidateState). s.trace.preference_score) compare_down-IsOrder)
        (then_by-IsOrder
          (on-IsOrder (λ (s : CandidateState). s.trace.model_match) true_first-IsOrder)
          (then_by-IsOrder
            (on-IsOrder (λ (s : CandidateState). s.trace.task_strength) compare_down-IsOrder)
            (on-IsOrder (λ (s : CandidateState). s.candidate.id) str_compare-IsOrder))))

-- The rank of two candidates: the higher preference score, then a match of the model, then the
-- higher task strength, then the identifier.
abbrev pub compare_rank : DecisionInput → Candidate → Candidate → Ordering
compare_rank input c d =
    let preference = (resolve_preference input.project input.action).preference in
    let model = normalize_string input.requested_model in
    then_by
      (compare (route_preference_score preference d).0 (route_preference_score preference c).0)
      (then_by (true_first (model_matches model c) (model_matches model d)) (
        then_by
          (compare (task_strength input.action d.capabilities)
            (task_strength input.action c.capabilities))
          (str_compare c.id d.id)))

-- What the trace of an eligible state holds.
abbrev Tells : DecisionInput → CandidateState → Type 0
Tells input s =
    s.trace.eligible ≡ true
    → (s.trace.preference_score
        ≡ (route_preference_score (resolve_preference input.project input.action).preference
            s.candidate).0)
      × (s.trace.model_match ≡ model_matches (normalize_string input.requested_model) s.candidate)
      × (s.trace.task_strength ≡ task_strength input.action s.candidate.capabilities)

settle-Tells : (input : DecisionInput) (c : Candidate) → Tells input (settle input c)
unfolding settle reject_mismatch evaluate_candidate
settle-Tells input c = ground arith

compare-rank :
    (input : DecisionInput) (s t : CandidateState)
    → Tells input s
    → Tells input t
    → s.trace.eligible ≡ true
    → t.trace.eligible ≡ true
    → compare_candidate_state s t ≡ compare_rank input s.candidate t.candidate
unfolding compare_candidate_state true_first then_by
compare-rank input s t f g p q = ground (arith, f p, g q)

rank_above :
    (input : DecisionInput) (s : CandidateState) (ts : List CandidateState)
    → Tells input s
    → s.trace.eligible ≡ true
    → All (Tells input) ts
    → All (λ t. compare_candidate_state s t ≢ Ordering.gt) ts
    → All (λ d. compare_rank input s.candidate d ≢ Ordering.gt) (ranking ts)
rank_above input s [] f p h k = tt
rank_above input s (t ∷ ts) f p (g, h) (r, k) = elim (Bool-cases t.trace.eligible) [
  | inl q ↦ rw q (
    subst (λ o. o ≢ Ordering.gt) (compare-rank input s t f g p q) r,
    rank_above input s ts f p h k,
  )
  | inr q ↦ rw q (rank_above input s ts f p h k)
]

ranking-IsSorted :
    (input : DecisionInput) (ss : List CandidateState)
    → All (Tells input) ss
    → IsSorted compare_candidate_state ss
    → IsSorted (compare_rank input) (ranking ss)
ranking-IsSorted input [] h k = tt
ranking-IsSorted input (s ∷ ss) (f, h) (r, k) = elim (Bool-cases s.trace.eligible) [
  | inl p ↦ rw p (rank_above input s ss f p h r, ranking-IsSorted input ss h k)
  | inr p ↦ rw p (ranking-IsSorted input ss h k)
]

sorted_states-Tells : (input : DecisionInput) → All (Tells input) (sorted_states input)
sorted_states-Tells input = All-of_mem (Tells input) (sorted_states input) (λ s m.
    let (c, n, e) =
      Memᴰ.of_map (settle input) input.candidates (mem-perm (sorted_states-perm input) m) in
    subst (Tells input) e (settle-Tells input c))

sorted_states-IsSorted :
    (input : DecisionInput) → IsSorted compare_candidate_state (sorted_states input)
unfolding sorted_states
sorted_states-IsSorted input =
    sort_func-IsSorted compare_candidate_state compare_candidate_state-IsOrder (
      apply_model_affinity (map (evaluate_candidate input) input.candidates)
        (normalize_string input.requested_model))

-- No ranked candidate stands behind one that it outranks: the ranking descends by preference
-- score, then model match, then task strength, and ascends by identifier among the rest.
pub ranked-IsSorted : (input : DecisionInput) → IsSorted (compare_rank input) (decide input).ranked
ranked-IsSorted input = subst (IsSorted (compare_rank input)) (sym (decide-ranking input)) (
    ranking-IsSorted input (sorted_states input) (sorted_states-Tells input)
      (sorted_states-IsSorted input))

module _ {ℓ} {A : Type ℓ} (p : A → Bool) where
  any_of_perm : {xs ys : List A} → Permᴰ xs ys → any p xs ≡ true → any p ys ≡ true
  any_of_perm {xs} {ys} d h = let (a, m, q) = mem_of_any p xs h in any_of_mem p ys (mem-perm d m) q

  any-perm : {xs ys : List A} → Permᴰ xs ys → any p xs ≡ any p ys
  any-perm {xs} {ys} d =
      eq_of_iff (any p xs) (any p ys) (any_of_perm d) (any_of_perm (Permᴰ.symm d))

-- Candidates with one identifier are one candidate.
abbrev pub IdsIdentify : List Candidate → Type 0
IdsIdentify cs = (a b : Candidate) → Memᴰ a cs → Memᴰ b cs → a.id ≡ b.id → a ≡ b

-- The input with its candidates in another order.
abbrev pub reorder : DecisionInput → List Candidate → DecisionInput
reorder input cs = record input { candidates = cs }

has_match-perm :
    (input : DecisionInput) {cs : List Candidate}
    → Permᴰ input.candidates cs
    → has_match input ≡ has_match (reorder input cs)
unfolding has_match evaluate_candidate
has_match-perm input d = any-perm is_match (Permᴰ.map (evaluate_candidate input) d)

settle-reorder :
    (input : DecisionInput) {cs : List Candidate}
    → Permᴰ input.candidates cs
    → (c : Candidate) → settle (reorder input cs) c ≡ settle input c
unfolding settle evaluate_candidate
settle-reorder input d c = rw (← has_match-perm input d)

-- Of one candidate there is one state.
abbrev IsStateOf : DecisionInput → CandidateState → Type 0
IsStateOf input s = (c : Candidate) × Memᴰ c input.candidates × (settle input c ≡ s)

state_same :
    (input : DecisionInput) (s t : CandidateState)
    → IdsIdentify input.candidates
    → IsStateOf input s
    → IsStateOf input t
    → s.candidate.id ≡ t.candidate.id
    → s ≡ t
state_same input s t ids (c, m, e) (d, n, q) h =
    let at_c : s.candidate ≡ c =
      ap (λ (s : CandidateState). s.candidate) (sym e) ∙ settle-candidate input c in
    let at_d : t.candidate ≡ d =
      ap (λ (s : CandidateState). s.candidate) (sym q) ∙ settle-candidate input d in
    let same : c ≡ d = ids c d m n (cc) in sym e ∙ (ap (settle input) same ∙ q)

id_of_compare :
    (s t : CandidateState)
    → compare_candidate_state s t ≡ Ordering.eq
    → s.candidate.id ≡ t.candidate.id
unfolding compare_candidate_state then_by true_first
id_of_compare s t h = eq_of_str_compare s.candidate.id t.candidate.id (ground arith)

sorted_states-reorder :
    (input : DecisionInput) (cs : List Candidate)
    → Permᴰ input.candidates cs
    → IdsIdentify input.candidates
    → sorted_states input ≡ sorted_states (reorder input cs)
unfolding sorted_states
sorted_states-reorder input cs d ids =
    ap (sort_func compare_candidate_state) (states_settled input)
    ∙ (sort_func-eq_of_perm compare_candidate_state compare_candidate_state-IsOrder
          (IsStateOf input) (λ s t p q h. state_same input s t ids p q (id_of_compare s t h))
          (Permᴰ.map (settle input) d)
          (All-of_mem (IsStateOf input) (map (settle input) input.candidates)
            (λ s m. Memᴰ.of_map (settle input) input.candidates m))
        ∙ ap (sort_func compare_candidate_state) (
            ap (λ f. map f cs) (sym (fun_ext (settle-reorder input d)))
            ∙ sym (states_settled (reorder input cs))))

-- The decision as a function of the sorted states.
decision_of : DecisionInput → List CandidateState → Decision
decision_of input states =
    let preference = resolve_preference input.project input.action in
    let model = normalize_string input.requested_model in
    let (selected, ranked, trace) = collect none states in
    record {
      preference = preference;
      selected = selected;
      ranked = ranked;
      trace = record {
        policy_verdict = input.policy_verdict;
        model_target = input.requested_model;
        model_match = model_match_label states model;
        required_capabilities = normalize_capabilities input.required_capabilities;
        preference = preference.preference;
        preference_source = preference.source;
        candidates = trace;
      };
    }

-- Where an identifier belongs to one candidate, the whole decision, its trace included, is the
-- same for the candidates in any order.
pub decide-reorder :
    (input : DecisionInput) (cs : List Candidate)
    → Permᴰ input.candidates cs
    → IdsIdentify input.candidates
    → decide input ≡ decide (reorder input cs)
unfolding decide decision_of
decide-reorder input cs d ids = ap (decision_of input) (sorted_states-reorder input cs d ids)
