-- ===== src/Agent/Approval/Fresh.antt =====
-- The ids of proposals, which a uint64 counts, and what is stored under them.
use rillan.Base.{
  ◌≡◌, ◌≢◌, refl, sym, ap, ◌∙◌, Bool-cases, str_eq, none, some, drop, arith, Str, lit, lookup,
  Option-cases, ◌↔◌, ◌⊎◌, subst, str_eq_iff, inl, inr, ℕ, ◌+◌, ◌^◌, ◌<◌, ◌≤◌, trim_space, [],
}
use rillan.Base.Map.{put, length-put_fresh, lookup-put, lookup-put_other}
use rillan.Base.Decimal.{eq_of_decimal}
use rillan.Agent.Approval.{
  ActionRequest, ActionProposal, ApprovalGate, GateError, propose, proposal_id, proposal_for,
  next_count, store_count, store_put, record_event, validate_action_request, apply_patch, run_tests,
  pending, proposed_event,
}

-- Every id in the store was counted.
abbrev pub IsNumbered : ApprovalGate → Type 0
IsNumbered g =
    (id : Str) (p : ActionProposal)
    → lookup id g.store ≡ some p
    → (k : ℕ) × (id ≡ proposal_id k) × (k ≤ g.counter)

pub eq_of_proposal_id : (m n : ℕ) → proposal_id m ≡ proposal_id n → m ≡ n
unfolding proposal_id lit
eq_of_proposal_id m n e = eq_of_decimal m n (ap (drop 9) e)

pub next_count_lem : (g : ApprovalGate) → g.counter + 1 < 2 ^ 64 → next_count g ≡ g.counter + 1
next_count_lem g h = omega arith

pub fresh :
    (g : ApprovalGate)
    → IsNumbered g
    → g.counter + 1 < 2 ^ 64
    → lookup (proposal_id (next_count g)) g.store ≡ none
fresh g numbered h = elim (Option-cases (lookup (proposal_id (next_count g)) g.store)) [
  | inl e ↦ e
  | inr (p, e) ↦
      let (k, same, le) = numbered (proposal_id (next_count g)) p e in
      absurd (omega (arith, le, next_count_lem g h, eq_of_proposal_id (next_count g) k same))
]

-- A request that may be proposed: of one of the two kinds, and with a summary.
pub IsProper : ActionRequest → Type 0
IsProper req = ((req.kind ≡ apply_patch) ⊎ (req.kind ≡ run_tests)) × (trim_space req.summary ≢ [])

-- The gate after a proposal that is accepted.
abbrev pub accepted : Str → ActionRequest → ApprovalGate → ApprovalGate
accepted request_id req g =
    record_event
      (record {
        type = proposed_event;
        request_id = request_id;
        verdict = pending;
        reason = req.kind;
      })
      (record {
        recorder = g.recorder;
        store = store_put (proposal_for request_id req g) g.store;
        counter = next_count g;
      })

-- A write under an id that is counted keeps the ids numbered.
pub put-IsNumbered :
    (g after : ApprovalGate) (id : Str) (p : ActionProposal) (k : ℕ)
    → after.store ≡ put id p g.store
    → id ≡ proposal_id k
    → k ≤ after.counter
    → g.counter ≤ after.counter
    → IsNumbered g
    → IsNumbered after
put-IsNumbered g after id p k e name le grows numbered other q found =
    elim (Bool-cases (str_eq other id)) [
      | inl same ↦ (k, (str_eq_iff other id).0 same ∙ name, le)
      | inr differs ↦
          let ne : other ≢ id = λ x. ground (arith, differs, str_eq_iff other id, x) in
          let before =
            sym (lookup-put_other id other p g.store ne) ∙ (ap (lookup other) (sym e) ∙ found) in
          let (j, known, bound) = numbered other q before in (j, known, omega (arith, bound, grows))
    ]

pub accepted-IsNumbered :
    (request_id : Str) (req : ActionRequest) (g : ApprovalGate)
    → g.counter + 1 < 2 ^ 64
    → IsNumbered g
    → IsNumbered (accepted request_id req g)
unfolding record_event store_put
accepted-IsNumbered request_id req g h =
    let p = proposal_for request_id req g in
    put-IsNumbered g (accepted request_id req g) p.id p (next_count g) refl refl (omega arith)
      (omega (arith, next_count_lem g h))

module _ {E : Type 0} where
  pub validate_iff :
      (req : ActionRequest) → (validate_action_request {E = E} req ≡ none) ↔ IsProper req
  unfolding validate_action_request IsProper
  validate_iff req = ground (arith, str_eq_iff req.kind apply_patch, str_eq_iff req.kind run_tests)

  pub propose_accepts :
      (request_id : Str) (req : ActionRequest) (g : ApprovalGate)
      → validate_action_request {E = E} req ≡ none
      → propose {E = E} request_id req g
        ≡ (accepted request_id req g, inr (proposal_for request_id req g))
  unfolding propose
  propose_accepts request_id req g e = rw (e, propose)

  pub propose_refuses :
      (request_id : Str) (req : ActionRequest) (g : ApprovalGate) (err : GateError E)
      → validate_action_request req ≡ some err
      → propose request_id req g ≡ (g, inl err)
  unfolding propose
  propose_refuses request_id req g err e = rw (e, propose)

propose-IsNumbered :
    (E : Type 0) (request_id : Str) (req : ActionRequest) (g : ApprovalGate)
    → IsNumbered g
    → g.counter + 1 < 2 ^ 64
    → IsNumbered (propose {E = E} request_id req g).0
propose-IsNumbered E request_id req g numbered h =
    elim (Option-cases (validate_action_request {E = E} req)) [
      | inl e ↦
          subst (λ (run : ApprovalGate × (GateError E ⊎ ActionProposal)). IsNumbered run.0)
            (sym (propose_accepts request_id req g e))
            (accepted-IsNumbered request_id req g h numbered)
      | inr (err, e) ↦
          subst (λ (run : ApprovalGate × (GateError E ⊎ ActionProposal)). IsNumbered run.0)
            (sym (propose_refuses request_id req g err e)) numbered
    ]

module _ {E : Type 0} where
  -- Let every id in the gate's store be one that the counter has counted, and let the counter not
  -- wrap. Then a proper request is stored as pending under an id that was free, and nothing else
  -- in the store changes; any other request changes nothing; and every id in the store after it is
  -- again one that was counted.
  pub propose-IsFresh :
      (request_id : Str) (req : ActionRequest) (g : ApprovalGate)
      → IsNumbered g
      → g.counter + 1 < 2 ^ 64
      → let (after, answer) = propose {E = E} request_id req g in
        (IsProper req
          → (p : ActionProposal) × (answer ≡ inr p)
            × (p.status ≡ pending)
            × (lookup p.id g.store ≡ none)
            × (lookup p.id after.store ≡ some p)
            × (store_count after.store ≡ store_count g.store + 1)
            × ((other : Str) → other ≢ p.id → lookup other after.store ≡ lookup other g.store))
        × (¬ IsProper req → (err : GateError E) × (answer ≡ inl err) × (after ≡ g))
        × IsNumbered after
  unfolding record_event store_put store_count
  propose-IsFresh request_id req g numbered h = (
    λ proper.
        let e = propose_accepts request_id req g ((validate_iff req).1 proper) in
        let p = proposal_for request_id req g in
        let free = fresh g numbered h in
        subst
          (λ (run : ApprovalGate × (GateError E ⊎ ActionProposal)).
            (p : ActionProposal) × (run.1 ≡ inr p)
            × (p.status ≡ pending)
            × (lookup p.id g.store ≡ none)
            × (lookup p.id run.0.store ≡ some p)
            × (store_count run.0.store ≡ store_count g.store + 1)
            × ((other : Str) → other ≢ p.id → lookup other run.0.store ≡ lookup other g.store))
          (sym e)
          (
            p,
            refl,
            refl,
            free,
            lookup-put p.id p g.store,
            length-put_fresh p.id p g.store free,
            λ other ne. lookup-put_other p.id other p g.store ne,
          ),
    λ improper. elim (Option-cases (validate_action_request {E = E} req)) [
      | inl e ↦ absurd (improper ((validate_iff req).0 e))
      | inr (err, e) ↦
          let run = propose_refuses request_id req g err e in
          (err, ap (λ r. r.1) run, ap (λ r. r.0) run)
    ],
    propose-IsNumbered E request_id req g numbered h,
  )
