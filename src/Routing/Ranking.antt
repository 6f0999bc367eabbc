-- ===== src/Routing/Ranking.antt =====
-- The ranking of `Decide`: which candidates are in it, and that the first of them is selected.
use mathlib.Core.Bool.{and-eq-true_iff}
use mathlib.Core.List.{Memᴰ, Permᴰ, head?}
use mathlib.Core.List.Permᴰ
use mathlib.Core.List.Memᴰ
use rillan.Base.{
  ◌≡◌, subst, refl, sym, ap, ◌∙◌, ◌↔◌, Bool, true, false, ◌&&◌, Option, none, some, List, [], ◌∷◌,
  map, any, keep, is_empty, arith, normalize_string, Bool-cases, inl, inr, if◌then◌else◌,
}
use rillan.Base.Member.{mem-perm, mem_of_keep, keep_of_mem, mem_of_any, any_of_mem}
use rillan.Base.Sort.Laws.{sort_func-perm}
use rillan.Routing.Types.{Candidate, DecisionInput, CandidateState}
use rillan.Routing.Decide.{
  model_matches, evaluate_candidate, reject_mismatch, apply_model_affinity, compare_candidate_state,
  collect, sorted_states, decide,
}
use rillan.Routing.Admit.{IsAdmitted, eligible_iff, evaluate_candidate-candidate}

abbrev pub is_eligible : CandidateState → Bool
is_eligible state = state.trace.eligible

abbrev pub is_match : CandidateState → Bool
is_match state = state.trace.eligible && state.trace.model_match

-- Whether some eligible candidate has the requested model.
unfoldable pub has_match : DecisionInput → Bool
has_match input = any is_match (map (evaluate_candidate input) input.candidates)

-- The state of a candidate after the model affinity.
unfoldable pub settle : DecisionInput → Candidate → CandidateState
settle input c =
    if has_match input
    then reject_mismatch (evaluate_candidate input c)
    else evaluate_candidate input c

-- Some admitted candidate has the requested model.
abbrev pub IsModelServed : DecisionInput → Type 0
IsModelServed input =
    (d : Candidate) × Memᴰ d input.candidates
    × IsAdmitted input d
    × (model_matches (normalize_string input.requested_model) d ≡ true)

pub evaluate_candidate-model_match :
    (input : DecisionInput) (c : Candidate)
    → (evaluate_candidate input c).trace.model_match
      ≡ model_matches (normalize_string input.requested_model) c
unfolding evaluate_candidate
evaluate_candidate-model_match input c = ground arith

pub settle-candidate : (input : DecisionInput) (c : Candidate) → (settle input c).candidate ≡ c
unfolding settle reject_mismatch
settle-candidate input c = ground (arith, evaluate_candidate-candidate input c)

has_match_iff : (input : DecisionInput) → (has_match input ≡ true) ↔ IsModelServed input
unfolding has_match
has_match_iff input = (to, from)
  where
    to : has_match input ≡ true → IsModelServed input
    to h =
        let (s, m, e) = mem_of_any is_match (map (evaluate_candidate input) input.candidates) h in
        let (d, n, q) = Memᴰ.of_map (evaluate_candidate input) input.candidates m in
        let (p, r) = (and-eq-true_iff _ _).0 (rw (← q) at e) in
        (d, n, (eligible_iff input d).0 p, sym (evaluate_candidate-model_match input d) ∙ r)

    from : IsModelServed input → has_match input ≡ true
    from (d, n, a, r) =
        any_of_mem is_match (map (evaluate_candidate input) input.candidates)
          (Memᴰ.map (evaluate_candidate input) n)
          (rw ((eligible_iff input d).1 a) (evaluate_candidate-model_match input d ∙ r))

settle_matched :
    (input : DecisionInput)
    → has_match input ≡ true
    → (cs : List Candidate)
    → map reject_mismatch (map (evaluate_candidate input) cs) ≡ map (settle input) cs
unfolding settle
settle_matched input h [] = refl
settle_matched input h (c ∷ cs) = rw (h, settle_matched input h cs)

settle_unmatched :
    (input : DecisionInput)
    → has_match input ≡ false
    → (cs : List Candidate) → map (evaluate_candidate input) cs ≡ map (settle input) cs
unfolding settle
settle_unmatched input h [] = refl
settle_unmatched input h (c ∷ cs) = rw (h, settle_unmatched input h cs)

requested_of_served :
    (input : DecisionInput)
    → IsModelServed input
    → is_empty (normalize_string input.requested_model) ≡ false
unfolding model_matches
requested_of_served input (d, m, a, e) = ground arith

pub states_settled :
    (input : DecisionInput)
    → apply_model_affinity
        (map (evaluate_candidate input) input.candidates)
        (normalize_string input.requested_model)
      ≡ map (settle input) input.candidates
unfolding apply_model_affinity has_match
states_settled input = elim (Bool-cases (has_match input)) [
  | inl h ↦
      rw (requested_of_served input ((has_match_iff input).0 h), h)
        (settle_matched input h input.candidates)
  | inr h ↦ elim (Bool-cases (is_empty (normalize_string input.requested_model))) [
    | inl e ↦ rw e (settle_unmatched input h input.candidates)
    | inr e ↦ rw (e, h) (settle_unmatched input h input.candidates)
  ]
]

reject_mismatch-eligible :
    (s : CandidateState)
    → (reject_mismatch s).trace.eligible ≡ (s.trace.eligible && s.trace.model_match)
unfolding reject_mismatch
reject_mismatch-eligible s = ground arith

-- A candidate stays eligible if it is admitted, and has the model if an admitted one has it.
settle-eligible_iff :
    (input : DecisionInput) (c : Candidate)
    → ((settle input c).trace.eligible ≡ true) ↔ (
        IsAdmitted input c
        × (IsModelServed input → model_matches (normalize_string input.requested_model) c ≡ true))
unfolding settle
settle-eligible_iff input c = elim (Bool-cases (has_match input)) [
  | inl h ↦
      rw (h, reject_mismatch-eligible, evaluate_candidate-model_match)
        (
          λ e. let (p, q) = (and-eq-true_iff _ _).0 e in ((eligible_iff input c).0 p, λ _. q),
          λ (a, served). rw ((eligible_iff input c).1 a) (served ((has_match_iff input).0 h)),
        )
  | inr h ↦ rw h (
    λ e. ((eligible_iff input c).0 e, λ served. cc ((has_match_iff input).1 served)),
    λ (a, served). (eligible_iff input c).1 a,
  )
]

-- The eligible candidates of a list of states, in its order.
abbrev pub ranking : List CandidateState → List Candidate
ranking states = map (λ s. s.candidate) (keep is_eligible states)

collect-ranked :
    (selected : Option Candidate) (states : List CandidateState)
    → (collect selected states).1 ≡ ranking states
unfolding collect
collect-ranked selected [] = refl
collect-ranked selected (s ∷ states) =
    ground (arith, collect-ranked selected states, collect-ranked (some s.candidate) states)

pub collect-some :
    (c : Candidate) (states : List CandidateState) → (collect (some c) states).0 ≡ some c
unfolding collect
collect-some c [] = refl
collect-some c (s ∷ states) = collect-some c states

collect-selected : (states : List CandidateState) → (collect none states).0 ≡ head? (ranking states)
unfolding collect
collect-selected [] = refl
collect-selected (s ∷ states) =
    ground (arith, collect-selected states, collect-some s.candidate states)

pub decide-ranking : (input : DecisionInput) → (decide input).ranked ≡ ranking (sorted_states input)
unfolding decide
decide-ranking input = collect-ranked none (sorted_states input)

-- The selected candidate is the first of the ranking, and there is none only if the ranking is
-- empty.
pub decide-selected :
    (input : DecisionInput) → (decide input).selected ≡ head? (decide input).ranked
unfolding decide
decide-selected input =
    collect-selected (sorted_states input)
    ∙ ap head? (sym (collect-ranked none (sorted_states input)))

pub sorted_states-perm :
    (input : DecisionInput) → Permᴰ (sorted_states input) (map (settle input) input.candidates)
unfolding sorted_states
sorted_states-perm input =
    rw (states_settled input)
      (sort_func-perm compare_candidate_state (map (settle input) input.candidates))

-- A candidate of the input is ranked exactly if it passes the policy verdict, the required
-- capabilities and the route preference, and has the requested model in case that some
-- candidate which passes has it. Nothing else is ranked.
pub ranked_iff :
    (input : DecisionInput) (c : Candidate)
    → Memᴰ c (decide input).ranked ↔ (
        Memᴰ c input.candidates
        × IsAdmitted input c
        × (IsModelServed input → model_matches (normalize_string input.requested_model) c ≡ true))
ranked_iff input c = (to, from)
  where
    to :
        Memᴰ c (decide input).ranked
        → Memᴰ c input.candidates
          × IsAdmitted input c
          × (IsModelServed input → model_matches (normalize_string input.requested_model) c ≡ true)
    to m =
        let (s, n, e) =
          Memᴰ.of_map (λ (s : CandidateState). s.candidate) (keep is_eligible (sorted_states input))
            (subst (Memᴰ c) (decide-ranking input) m) in
        let (n', h) = mem_of_keep is_eligible (sorted_states input) n in
        let (d, k, q) =
          Memᴰ.of_map (settle input) input.candidates (mem-perm (sorted_states-perm input) n') in
        let same : c ≡ d =
          sym e ∙ (ap (λ (s : CandidateState). s.candidate) (sym q) ∙ settle-candidate input d) in
        let (a, served) = (settle-eligible_iff input d).0 (rw (← q) at h) in
        (Memᴰ.cast same k, rw same a, rw same served)

    from :
        Memᴰ c input.candidates
          × IsAdmitted input c
          × (IsModelServed input → model_matches (normalize_string input.requested_model) c ≡ true)
        → Memᴰ c (decide input).ranked
    from (m, a, served) =
        let n = mem-perm (Permᴰ.symm (sorted_states-perm input)) (Memᴰ.map (settle input) m) in
        let k =
          keep_of_mem is_eligible (sorted_states input) n
            ((settle-eligible_iff input c).1 (a, served)) in
        subst (Memᴰ c) (sym (decide-ranking input)) (
          Memᴰ.cast (sym (settle-candidate input c))
            (Memᴰ.map (λ (s : CandidateState). s.candidate) k))
