-- ===== src/Routing/Decide.antt =====
-- internal/routing/decision.go: the decision, function by function. `cloneCandidate` copies the
-- slices of a candidate, which is the identity on values.
use rillan.Base.{
  ℕ, ◌+◌, if◌then◌else◌, compare, Ordering, Bool, true, false, not, ◌&&◌, ◌||◌, Option, none, some,
  List, [], ◌∷◌, map, any, keep, is_empty, is_none, Str, lit, str_eq, str_compare, str_mem, lookup,
  normalize_string,
}
use rillan.Base.Sort.{sort_func}
use rillan.Base.Sort.Order.{true_first, then_by}
use rillan.Config.{ProjectConfig, prefer_auto, prefer_local, prefer_cloud, prefer_local_only}
use rillan.Policy.{
  ActionType, code_diagnosis, code_generation, architecture, explanation, refactor, review, Verdict,
}
use rillan.Routing.Types.{
  local, remote, PreferenceSource, ResolvedPreference, Candidate, DecisionInput, CandidateTrace,
  Decision, CandidateState,
}

-- `normalizePreference`: one of the four preferences, or the empty text.
unfoldable pub normalize_preference : Str → Str
normalize_preference value =
    let v = normalize_string value in
    if str_eq v prefer_auto
    then prefer_auto
    else if str_eq v prefer_local
    then prefer_local
    else if str_eq v prefer_cloud
    then prefer_cloud
    else if str_eq v prefer_local_only
    then prefer_local_only
    else []

-- What is left of `ResolvePreference` once the task type has named no preference.
unfoldable pub project_preference : ProjectConfig → ResolvedPreference
unfolding normalize_preference
project_preference project =
    let preference = normalize_preference project.routing.default in
    if is_empty preference
    then record { preference = prefer_auto; source = PreferenceSource.default }
    else record { preference = preference; source = PreferenceSource.project_default }

unfoldable pub resolve_preference : ProjectConfig → ActionType → ResolvedPreference
unfolding project_preference lookup
resolve_preference project action = elim (lookup action project.routing.task_types) [
  | none ↦ project_preference project
  | some raw ↦
      let preference = normalize_preference raw in
      if is_empty preference
      then project_preference project
      else record { preference = preference; source = PreferenceSource.task_type }
]

unfoldable pub model_matches : Str → Candidate → Bool
model_matches requested_model candidate =
    if is_empty requested_model
    then false
    else any (λ pin. str_eq (normalize_string pin) requested_model) candidate.model_pins
      || str_eq (normalize_string candidate.default_model) requested_model

-- Whether the verdict admits the candidate, and the reason if not.
unfoldable pub policy_eligible : Verdict → Candidate → Bool × Str
policy_eligible Verdict.block candidate = (false, lit "policy_blocked")
policy_eligible Verdict.local_only candidate = elim candidate.location [
  | local ↦ (true, [])
  | remote ↦ (false, lit "policy_local_only")
]
policy_eligible _ candidate = (true, [])

-- The score, whether the preference admits the candidate, and the reason if not.
unfoldable pub route_preference_score : Str → Candidate → ℕ × Bool × Str
unfolding normalize_preference
route_preference_score preference candidate =
    let p = normalize_preference preference in
    if str_eq p prefer_local
    then elim candidate.location [ local ↦ (1, true, []) | remote ↦ (0, true, []) ]
    else if str_eq p prefer_cloud
    then elim candidate.location [ remote ↦ (1, true, []) | local ↦ (0, true, []) ]
    else if str_eq p prefer_local_only
    then elim candidate.location [
      | local ↦ (1, true, [])
      | remote ↦ (0, false, lit "route_preference_local_only")
    ]
    else (0, true, [])

unfoldable pub capability_weights : ActionType → List (Str × ℕ)
capability_weights action =
    if str_eq action code_diagnosis || str_eq action code_generation || str_eq action refactor
    then (lit "tool_calling", 3) ∷ (lit "reasoning", 2) ∷ (lit "chat", 1) ∷ []
    else if str_eq action review || str_eq action architecture || str_eq action explanation
    then (lit "reasoning", 2) ∷ (lit "chat", 1) ∷ []
    else (lit "chat", 1) ∷ []

-- The loop of `taskStrength` over the weights, for the set of available capabilities.
unfoldable pub strength_of : List Str → List (Str × ℕ) → ℕ
strength_of available [] = 0
strength_of available ((capability, weight) ∷ weights) =
    (if str_mem capability available then weight else 0) + strength_of available weights

unfoldable pub task_strength : ActionType → List Str → ℕ
unfolding capability_weights strength_of str_mem
task_strength action capabilities =
    strength_of (map normalize_string capabilities) (capability_weights action)

-- The loop of `normalizeCapabilities`; `seen` is the set of the texts put out so far.
unfoldable pub dedup_normalized : List Str → List Str → List Str
dedup_normalized seen [] = []
dedup_normalized seen (value ∷ values) =
    let normalized = normalize_string value in
    let skipped = dedup_normalized seen values in
    let added = normalized ∷ dedup_normalized (normalized ∷ seen) values in
    if is_empty normalized || str_mem normalized seen then skipped else added

unfoldable pub normalize_capabilities : List Str → List Str
unfolding dedup_normalized sort_func str_compare str_mem
normalize_capabilities values = sort_func str_compare (dedup_normalized [] values)

unfoldable pub missing_capabilities : List Str → List Str → List Str
missing_capabilities required available =
    keep (λ capability. not (str_mem capability (map normalize_string available))) required

-- The round of the loop of `Decide` for one candidate.
unfoldable pub evaluate_candidate : DecisionInput → Candidate → CandidateState
evaluate_candidate input candidate =
    let requested_model = normalize_string input.requested_model in
    let required = normalize_capabilities input.required_capabilities in
    let preference = resolve_preference input.project input.action in
    let trace : CandidateTrace = record {
      id = candidate.id;
      location = candidate.location;
      eligible = false;
      rejected = false;
      selected = false;
      reason = [];
      model_match = model_matches requested_model candidate;
      missing_capabilities = [];
      preference_score = 0;
      task_strength = 0;
    } in
    let (admitted, reason) = policy_eligible input.policy_verdict candidate in
    let missing = missing_capabilities required candidate.capabilities in
    let (score, preferred, why) = route_preference_score preference.preference candidate in
    if not admitted
    then record { candidate = candidate; trace = record trace { rejected = true; reason = reason } }
    else if not (is_empty missing)
    then record {
      candidate = candidate;
      trace = record trace {
        rejected = true;
        reason = lit "missing_required_capabilities";
        missing_capabilities = missing;
      };
    }
    else if not preferred
    then record {
      candidate = candidate;
      trace = record trace { rejected = true; reason = why; preference_score = score };
    }
    else record {
      candidate = candidate;
      trace = record trace {
        eligible = true;
        preference_score = score;
        task_strength = task_strength input.action candidate.capabilities;
      };
    }

-- The second loop of `applyModelAffinity`, for one state.
unfoldable pub reject_mismatch : CandidateState → CandidateState
reject_mismatch state =
    if state.trace.eligible && not state.trace.model_match
    then record {
      candidate = state.candidate;
      trace = record (state.trace) {
        eligible = false;
        rejected = true;
        reason = lit "requested_model_mismatch";
      };
    }
    else state

unfoldable pub apply_model_affinity : List CandidateState → Str → List CandidateState
unfolding reject_mismatch
apply_model_affinity states requested_model =
    if is_empty requested_model
    then states
    else if any (λ state. state.trace.eligible && state.trace.model_match) states
    then map reject_mismatch states
    else states

unfoldable pub model_match_label : List CandidateState → Str → Str
model_match_label states requested_model =
    if is_empty requested_model
    then lit "none"
    else if any (λ state. state.trace.model_match) states
    then lit "exact"
    else lit "none"

-- The order of two keys, by the source's chain of tests: eligible first, then the higher score,
-- then a match of the model, then the higher strength, then the identifiers.
unfoldable pub compare_candidate_state : CandidateState → CandidateState → Ordering
unfolding true_first then_by
compare_candidate_state left right = then_by (true_first left.trace.eligible right.trace.eligible) (
    then_by (compare right.trace.preference_score left.trace.preference_score) (
      then_by (true_first left.trace.model_match right.trace.model_match) (
        then_by (compare right.trace.task_strength left.trace.task_strength)
          (str_compare left.candidate.id right.candidate.id))))

-- The last loop of `Decide`: the candidate that is selected first, the ranking and the trace.
-- `selected` is the choice made so far.
unfoldable pub collect :
    Option Candidate → List CandidateState → Option Candidate × List Candidate × List CandidateTrace
collect selected [] = (selected, [], [])
collect selected (state ∷ states) =
    let chosen = is_none selected && state.trace.eligible in
    let (final, ranked, trace) =
      collect (if chosen then some state.candidate else selected) states in
    (
      final,
      if state.trace.eligible then state.candidate ∷ ranked else ranked,
      (if chosen then record (state.trace) { selected = true } else state.trace) ∷ trace,
    )

-- The states of all candidates, sorted.
unfoldable pub sorted_states : DecisionInput → List CandidateState
unfolding sort_func
sorted_states input = sort_func compare_candidate_state (
    apply_model_affinity (map (evaluate_candidate input) input.candidates)
      (normalize_string input.requested_model))

unfoldable pub decide : DecisionInput → Decision
unfolding sorted_states compare_candidate_state collect apply_model_affinity evaluate_candidate
    model_match_label
decide input =
    let preference = resolve_preference input.project input.action in
    let states = sorted_states input in
    let (selected, ranked, trace) = collect none states in
    record {
      preference = preference;
      selected = selected;
      ranked = ranked;
      trace = record {
        policy_verdict = input.policy_verdict;
        model_target = input.requested_model;
        model_match = model_match_label states (normalize_string input.requested_model);
        required_capabilities = normalize_capabilities input.required_capabilities;
        preference = preference.preference;
        preference_source = preference.source;
        candidates = trace;
      };
    }
