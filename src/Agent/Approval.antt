-- ===== src/Agent/Approval.antt =====
-- internal/agent/action_proposal.go, proposal_store.go and gating.go: actions are proposed, and a
-- person approves or denies each. Every method of the store runs under its mutex and is one step.
mod Resolve
mod Once
mod Race
mod Fresh
mod Tests
use rillan.Base.{
  ◌≡◌, Bool, true, false, not, ◌&&◌, ◌||◌, if◌then◌else◌, Option, none, some, List, [], ◌∷◌, ◌++◌,
  map, Str, lit, str_eq, is_empty, ◌⊎◌, inl, inr, trim_space, lookup, length, ℕ, ◌+◌, ◌%◌, ◌^◌,
}
use rillan.Base.Map.{put}
use rillan.Base.Decimal.{decimal}

abbrev pub pending : Str
pending = lit "pending"

abbrev pub approved_status : Str
approved_status = lit "approved"

abbrev pub denied_status : Str
denied_status = lit "denied"

abbrev pub apply_patch : Str
apply_patch = lit "apply_patch"

abbrev pub run_tests : Str
run_tests = lit "run_tests"

-- The payload is a map, or nil.
pub record ActionRequest : Type 0 where
  pub kind : Str
  pub summary : Str
  pub payload : Option (List (Str × Str))

pub record ActionProposal : Type 0 where
  pub id : Str
  pub kind : Str
  pub summary : Str
  pub payload : Option (List (Str × Str))
  pub request_id : Str
  pub status : Str

-- The fields that the gate fills in of an audit.Event.
pub record Event : Type 0 where
  pub type : Str
  pub request_id : Str
  pub verdict : Str
  pub reason : Str

abbrev pub proposed_event : Str
proposed_event = lit "agent_action_proposed"

abbrev pub approved_event : Str
approved_event = lit "agent_action_approved"

abbrev pub denied_event : Str
denied_event = lit "agent_action_denied"

-- The errors of the gate; the last wraps what the caller's function returned.
pub data GateError (E : Type 0) : Type 0 where
  unsupported_kind empty_summary not_found approval_required : GateError E
  already : Str → Str → GateError E
  failed : E → GateError E

abbrev pub ProposalStore : Type 0
ProposalStore = List (Str × ActionProposal)

-- The recorder holds what was recorded, the latest last, and may be nil; what it returns is
-- dropped by the gate.
pub record ApprovalGate : Type 0 where
  pub recorder : Option (List Event)
  pub store : ProposalStore
  pub counter : ℕ

unfoldable pub validate_action_request : {E : Type 0} → ActionRequest → Option (GateError E)
validate_action_request req =
    if not (str_eq req.kind apply_patch || str_eq req.kind run_tests)
    then some GateError.unsupported_kind
    else if is_empty (trim_space req.summary)
    then some GateError.empty_summary
    else none

-- `ProposalStore.Put`, `Get`, `UpdateStatus` and `Count`.
unfoldable pub store_put : ActionProposal → ProposalStore → ProposalStore
store_put proposal s = put proposal.id proposal s

unfoldable pub store_get : Str → ProposalStore → Option ActionProposal
store_get id s = lookup id s

abbrev pub with_status : Str → ActionProposal → ActionProposal
with_status status p = record {
  id = p.id;
  kind = p.kind;
  summary = p.summary;
  payload = p.payload;
  request_id = p.request_id;
  status = status;
}

unfoldable pub update_status : Str → Str → ProposalStore → Option (ActionProposal × ProposalStore)
update_status id status s = elim (lookup id s) [
  | none ↦ none
  | some p ↦ some (with_status status p, put id (with_status status p) s)
]

unfoldable pub store_count : ProposalStore → ℕ
store_count s = length s

-- The entries of a payload, in a new map.
clone_entries : List (Str × Str) → List (Str × Str) → List (Str × Str)
clone_entries [] cloned = cloned
clone_entries ((key, value) ∷ input) cloned = clone_entries input (put key value cloned)

unfoldable pub clone_payload : Option (List (Str × Str)) → Option (List (Str × Str))
unfolding clone_entries
clone_payload none = none
clone_payload (some input) = some (clone_entries input [])

-- `ApprovalGate.record`
unfoldable pub record_event : Event → ApprovalGate → ApprovalGate
record_event event g = record {
  recorder = elim g.recorder [ none ↦ none | some events ↦ some (events ++ (event ∷ [])) ];
  store = g.store;
  counter = g.counter;
}

-- The counter is an atomic uint64, which wraps around.
abbrev pub next_count : ApprovalGate → ℕ
next_count g = (g.counter + 1) % 2 ^ 64

unfoldable pub proposal_id : ℕ → Str
proposal_id n = lit "proposal-" ++ decimal n

abbrev pub proposal_for : Str → ActionRequest → ApprovalGate → ActionProposal
proposal_for request_id req g = record {
  id = proposal_id (next_count g);
  kind = req.kind;
  summary = req.summary;
  payload = clone_payload req.payload;
  request_id = request_id;
  status = pending;
}

-- `ApprovalGate.Propose`
unfoldable pub propose :
    {E : Type 0}
    → Str
    → ActionRequest
    → ApprovalGate
    → ApprovalGate × (GateError E ⊎ ActionProposal)
unfolding record_event store_put
propose request_id req g = elim (validate_action_request req) [
  | some err ↦ (g, inl err)
  | none ↦
      let proposal = proposal_for request_id req g in
      let stored : ApprovalGate = record {
        recorder = g.recorder;
        store = store_put proposal g.store;
        counter = next_count g;
      } in
      let event : Event = record {
        type = proposed_event;
        request_id = request_id;
        verdict = proposal.status;
        reason = req.kind;
      } in
      (record_event event stored, inr proposal)
]

-- What `Resolve` returns; no proposal stands for the zero value.
pub record Resolution (E : Type 0) : Type 0 where
  pub proposal : Option ActionProposal
  pub error : Option (GateError E)

-- The function that an approved action runs, on the state of the world; it may be nil.
abbrev pub Execute : Type 0 → Type 0 → Type 0
Execute W E = Option (W → W × Option E)

-- The first step of `Resolve`: a resolution, if there is nothing to commit.
unfoldable pub resolve_check : {E : Type 0} → Str → ProposalStore → Option (Resolution E)
unfolding store_get
resolve_check id s = elim (store_get id s) [
  | none ↦ some (record { proposal = none; error = some GateError.not_found })
  | some p ↦
      if not (str_eq p.status pending)
      then some (record { proposal = some p; error = some (GateError.already p.id p.status) })
      else none
]

-- The event that a decision on a proposal records.
abbrev pub decision_event : Bool → ActionProposal → Event
decision_event approved p = record {
  type = if approved then approved_event else denied_event;
  request_id = p.request_id;
  verdict = p.status;
  reason = p.kind;
}

module _ {W E : Type 0} where
  unfoldable pub run_execute : Execute W E → W → W × Option (GateError E)
  run_execute none w = (w, none)
  run_execute (some execute) w =
      let (after, err) = execute w in
      (after, elim err [ none ↦ none | some e ↦ some (GateError.failed e) ])

  -- The other steps of `Resolve`: the status is updated, the decision recorded, and what was
  -- approved is run.
  unfoldable pub resolve_commit :
      Str → Bool → Execute W E → ApprovalGate → W → ApprovalGate × W × Resolution E
  unfolding update_status record_event
  resolve_commit id approved execute g w =
      let status = if approved then approved_status else denied_status in
      elim (update_status id status g.store) [
        | none ↦ (g, w, record { proposal = none; error = some GateError.not_found })
        | some (updated, store) ↦
            let stored : ApprovalGate = record {
              recorder = g.recorder;
              store = store;
              counter = g.counter;
            } in
            let recorded = record_event (decision_event approved updated) stored in
            if not approved
            then (
              recorded,
              w,
              record { proposal = some updated; error = some GateError.approval_required },
            )
            else (let (after, err) = run_execute execute w in
                (recorded, after, record { proposal = some updated; error = err }))
      ]

  -- `ApprovalGate.Resolve`
  unfoldable pub resolve :
      Str → Bool → Execute W E → ApprovalGate → W → ApprovalGate × W × Resolution E
  resolve id approved execute g w = elim (resolve_check id g.store) [
    | some r ↦ (g, w, r)
    | none ↦ resolve_commit id approved execute g w
  ]

  -- `ApprovalGate.Execute`
  unfoldable pub execute_now :
      ActionProposal
      → Bool
      → Execute W E
      → ApprovalGate
      → W
      → ApprovalGate × W × Option (GateError E)
  unfolding record_event run_execute
  execute_now proposal approved execute g w =
      let status = if approved then approved_status else denied_status in
      let recorded = record_event (decision_event approved (with_status status proposal)) g in
      if not approved
      then (recorded, w, some GateError.approval_required)
      else (let (after, err) = run_execute execute w in (recorded, after, err))
