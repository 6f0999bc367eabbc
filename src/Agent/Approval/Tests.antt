-- ===== src/Agent/Approval/Tests.antt =====
-- A gate with one proposal, which is approved, or which two calls decide at once.
use rillan.Base.{
  Bool-cases, str_eq_iff, ◌^◌, ◌<◌, ◌≡◌, ◌≢◌, refl, true, false, Option, none, some, List, [], ◌∷◌,
  inl, inr, Str, lit, str_eq, lookup, trim_space, ℕ, ◌+◌, arith,
}
use rillan.Base.Map.{put}
use rillan.Base.Decimal.{decimal}
use rillan.Agent.Approval.{
  ActionRequest, ActionProposal, ApprovalGate, GateError, propose, resolve, run_execute, store_put,
  store_count, store_get, record_event, proposal_id, validate_action_request, resolve_check,
  resolve_commit, update_status, clone_payload, pending, approved_status, denied_status,
  with_status, run_tests,
}
use rillan.Agent.Approval.Fresh.{IsNumbered, IsProper, propose-IsFresh}
use rillan.Agent.Approval.Resolve.{resolve-branches}
use rillan.Agent.Approval.Once.{
  Call, noting, after_calls, new_gate, times_run, runs_of, history-runs_once,
}
use rillan.Agent.Approval.Race.{resolve_both, race-runs_twice}

approval : Unit {0}
unfolding propose resolve run_execute store_put store_count record_event proposal_id decimal
    validate_action_request resolve_check resolve_commit update_status store_get clone_payload put
    lookup lit str_eq trim_space after_calls times_run
approval = tt

abbrev request : ActionRequest
request = record { kind = run_tests; summary = lit "go test"; payload = none }

abbrev fails : Option ℕ
fails = some 3

abbrev one_open : ApprovalGate
one_open = (propose {E = ℕ} (lit "r") request (new_gate (some []))).0

abbrev opened : ActionProposal
opened = record {
  id = lit "proposal-1";
  kind = run_tests;
  summary = lit "go test";
  payload = none;
  request_id = lit "r";
  status = pending;
}

abbrev two_approvals : List (Call ℕ)
two_approvals =
    Call.proposing (lit "r") request
    ∷ Call.resolving (lit "proposal-1") true none
    ∷ Call.resolving (lit "proposal-1") true none
    ∷ []

stored : lookup (lit "proposal-1") one_open.store ≡ some opened
unfolding approval
stored = refl

ran_once : (after_calls two_approvals (new_gate none, [])).1 ≡ lit "proposal-1" ∷ []
unfolding approval
ran_once = refl

one_open-IsNumbered : IsNumbered one_open
unfolding approval
one_open-IsNumbered id p found = elim (Bool-cases (str_eq id (lit "proposal-1"))) [
  | inl same ↦ (1, (str_eq_iff id (lit "proposal-1")).0 same, omega arith)
  | inr other ↦ absurd (ground (arith, other, found))
]

one_open_room : one_open.counter + 1 < 2 ^ 64
unfolding approval
one_open_room = omega arith

propose-IsFresh_example :
    let (after, answer) = propose {E = ℕ} (lit "s") request one_open in
    (IsProper request
      → (p : ActionProposal) × (answer ≡ inr p)
        × (p.status ≡ pending)
        × (lookup p.id one_open.store ≡ none)
        × (lookup p.id after.store ≡ some p)
        × (store_count after.store ≡ store_count one_open.store + 1)
        × ((other : Str) → other ≢ p.id → lookup other after.store ≡ lookup other one_open.store))
    × (¬ IsProper request → (err : GateError ℕ) × (answer ≡ inl err) × (after ≡ one_open))
    × IsNumbered after
propose-IsFresh_example =
    propose-IsFresh (lit "s") request one_open one_open-IsNumbered one_open_room

resolve-branches_example :
    let (after, world, answer) =
      resolve (lit "proposal-1") true (noting (lit "proposal-1") fails) one_open [] in
    (lookup (lit "proposal-1") one_open.store ≡ none
      → (after ≡ one_open) × (world ≡ []) × (answer.error ≡ some GateError.not_found))
    × ((p : ActionProposal)
        → lookup (lit "proposal-1") one_open.store ≡ some p
        → (p.status ≢ pending
            → (after ≡ one_open)
              × (world ≡ [])
              × (answer.error ≡ some (GateError.already p.id p.status)))
          × (p.status ≡ pending
              → (lookup (lit "proposal-1") after.store ≡ some (with_status approved_status p))
                × (true ≡ false → (world ≡ []) × (answer.error ≡ some GateError.approval_required))
                × (true ≡ true
                    → (world ≡ (run_execute (noting (lit "proposal-1") fails) []).0)
                      × (answer.error ≡ (run_execute (noting (lit "proposal-1") fails) []).1))))
    × ((other : Str)
        → other ≢ lit "proposal-1"
        → lookup other after.store ≡ lookup other one_open.store)
resolve-branches_example =
    resolve-branches (lit "proposal-1") (noting (lit "proposal-1") fails) one_open [] true

history-runs_once_example :
    let (g, ran) = after_calls two_approvals (new_gate none, []) in
    times_run (lit "proposal-1") ran ≡ runs_of (lookup (lit "proposal-1") g.store)
history-runs_once_example = history-runs_once none two_approvals (lit "proposal-1") (omega arith)

race-runs_twice_example :
    ((resolve_both (lit "proposal-1") true true (noting (lit "x") fails) one_open []).1
      ≡ (run_execute (noting (lit "x") fails) (run_execute (noting (lit "x") fails) []).0).0)
    × ((resolve_both (lit "proposal-1") true false (noting (lit "x") fails) one_open []).1
        ≡ (run_execute (noting (lit "x") fails) []).0)
    × (lookup
          (lit "proposal-1")
          (resolve_both (lit "proposal-1") true false (noting (lit "x") fails) one_open []).0.store
        ≡ some (with_status denied_status opened))
race-runs_twice_example =
    race-runs_twice (lit "proposal-1") (noting (lit "x") fails) one_open [] opened stored refl
