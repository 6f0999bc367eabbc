-- ===== src/Routing/Trace.antt =====
-- The trace of a decision: an entry for each candidate, with its reason, and the selected one.
use mathlib.Core.List.{Permᴰ}
use mathlib.Core.List.Memᴰ
use mathlib.Core.List.Permᴰ
use rillan.Base.{
  ◌≡◌, ◌≢◌, refl, subst, true, false, not, ◌&&◌, is_none, Option, none, some, List, [], ◌∷◌, map,
  keep, All, arith, Str, lit, Bool-cases, inl, inr,
}
use rillan.Base.Member.{mem-perm, All-of_mem}
use rillan.Routing.Types.{Candidate, DecisionInput, CandidateState, CandidateTrace}
use rillan.Routing.Decide.{
  evaluate_candidate, reject_mismatch, policy_eligible, route_preference_score, collect,
  sorted_states, decide,
}
use rillan.Routing.Ranking.{settle, settle-candidate, collect-some, sorted_states-perm}

-- An entry either is eligible, or is rejected for a reason that it names.
pub record IsExplained (t : CandidateTrace) : Type 0 where
  pub either : t.rejected ≡ not t.eligible
  pub reasoned : t.rejected ≡ true → t.reason ≢ []
  pub chosen : t.selected ≡ true → t.eligible ≡ true

-- What holds of every state before the last loop.
record IsFresh (s : CandidateState) : Type 0 where
  explained : IsExplained s.trace
  unselected : s.trace.selected ≡ false
  named : s.trace.id ≡ s.candidate.id

settle-IsFresh : (input : DecisionInput) (c : Candidate) → IsFresh (settle input c)
unfolding settle reject_mismatch evaluate_candidate policy_eligible route_preference_score lit
settle-IsFresh input c = record {
  explained = record { either = ground arith; reasoned = ground arith; chosen = ground arith };
  unselected = ground arith;
  named = ground arith;
}

sorted_states-IsFresh : (input : DecisionInput) → All IsFresh (sorted_states input)
sorted_states-IsFresh input = All-of_mem IsFresh (sorted_states input) (λ s m.
    let (c, n, e) =
      Memᴰ.of_map (settle input) input.candidates (mem-perm (sorted_states-perm input) m) in
    subst IsFresh e (settle-IsFresh input c))

collect-IsExplained :
    (selected : Option Candidate) (ss : List CandidateState)
    → All IsFresh ss
    → All IsExplained (collect selected ss).2
unfolding collect
collect-IsExplained selected [] h = tt
collect-IsExplained selected (s ∷ ss) (f, h) =
    elim (Bool-cases (is_none selected && s.trace.eligible)) [
      | inl e ↦ rw e (
        record {
          either = f.explained.either;
          reasoned = f.explained.reasoned;
          chosen = λ _. ground arith;
        },
        collect-IsExplained (some s.candidate) ss h,
      )
      | inr e ↦ rw e (f.explained, collect-IsExplained selected ss h)
    ]

collect-ids :
    (selected : Option Candidate) (ss : List CandidateState)
    → All IsFresh ss
    → map (λ (t : CandidateTrace). t.id) (collect selected ss).2
      ≡ map (λ (s : CandidateState). s.candidate.id) ss
unfolding collect
collect-ids selected [] h = refl
collect-ids selected (s ∷ ss) (f, h) =
    ground (arith, f.named, collect-ids selected ss h, collect-ids (some s.candidate) ss h)

-- The identifier of the selected candidate, if there is one.
abbrev pub selected_ids : Option Candidate → List Str
selected_ids none = []
selected_ids (some c) = c.id ∷ []

abbrev pub marked : List CandidateTrace → List Str
marked ts = map (λ (t : CandidateTrace). t.id) (keep (λ (t : CandidateTrace). t.selected) ts)

collect-marked-some :
    (c : Candidate) (ss : List CandidateState)
    → All IsFresh ss
    → marked (collect (some c) ss).2 ≡ []
unfolding collect
collect-marked-some c [] h = refl
collect-marked-some c (s ∷ ss) (f, h) = ground (arith, f.unselected, collect-marked-some c ss h)

collect-marked :
    (ss : List CandidateState)
    → All IsFresh ss
    → marked (collect none ss).2 ≡ selected_ids (collect none ss).0
unfolding collect
collect-marked [] h = refl
collect-marked (s ∷ ss) (f, h) = ground (
  arith,
  f.named,
  f.unselected,
  collect-marked ss h,
  collect-marked-some s.candidate ss h,
  collect-some s.candidate ss,
)

-- Every entry of the trace is eligible, or else rejected with a reason that is not empty, and a
-- selected entry is eligible.
pub trace-IsExplained : (input : DecisionInput) → All IsExplained (decide input).trace.candidates
unfolding decide
trace-IsExplained input =
    collect-IsExplained none (sorted_states input) (sorted_states-IsFresh input)

map_candidate_ids :
    (input : DecisionInput) (cs : List Candidate)
    → map (λ (s : CandidateState). s.candidate.id) (map (settle input) cs)
      ≡ map (λ (c : Candidate). c.id) cs
map_candidate_ids input [] = refl
map_candidate_ids input (c ∷ cs) = rw (settle-candidate, map_candidate_ids input cs)

-- The trace has one entry for each candidate of the input, and marks as selected just the
-- candidate that the decision selects, if any.
pub trace-ids :
    (input : DecisionInput)
    → Permᴰ
        (map (λ t. t.id) (decide input).trace.candidates)
        (map (λ (c : Candidate). c.id) input.candidates)
      × (marked (decide input).trace.candidates ≡ selected_ids (decide input).selected)
unfolding decide
trace-ids input = (
  rw (collect-ids none (sorted_states input) (sorted_states-IsFresh input)) (
      subst (Permᴰ (map (λ (s : CandidateState). s.candidate.id) (sorted_states input)))
        (map_candidate_ids input input.candidates)
        (Permᴰ.map (λ (s : CandidateState). s.candidate.id) (sorted_states-perm input))),
  collect-marked (sorted_states input) (sorted_states-IsFresh input),
)
