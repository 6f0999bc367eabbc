-- ===== src/Agent/Approval/Once.antt =====
-- A history of calls: what was approved ran once, and what was not approved never ran.
use rillan.Base.{
  ◌≡◌, ◌≢◌, refl, sym, ap, ◌∙◌, subst, Bool, true, false, if◌then◌else◌, Option, none, some, List,
  [], ◌∷◌, length, arith, Str, lit, lookup, str_eq, str_eq_iff, str_eq-eq_false, Option-cases,
  Bool-cases, ◌⊎◌, inl, inr, ℕ, ◌+◌, ◌^◌, ◌<◌, ◌≤◌, suc,
}
use rillan.Base.Map.{put, lookup-put, lookup-put_other}
use rillan.Agent.Approval.{
  ActionRequest, ActionProposal, ApprovalGate, GateError, Event, Execute, propose, resolve,
  run_execute, Resolution, proposal_for, approved_status, with_status, record_event, store_put,
  validate_action_request, pending,
}
use rillan.Agent.Approval.Fresh.{
  IsNumbered, fresh, next_count_lem, propose_accepts, propose_refuses, accepted,
  accepted-IsNumbered, put-IsNumbered,
}
use rillan.Agent.Approval.Resolve.{
  decided, decided_status, resolve_missing, resolve_settled, resolve_denied, resolve_approved,
  lookup-decided, lookup-decided_other,
}

-- The ids whose function ran, the latest first, are the state of the world.
abbrev pub World : Type 0
World = List Str

pub data Call (E : Type 0) : Type 0 where
  proposing : Str → ActionRequest → Call E
  resolving : Str → Bool → Option E → Call E

abbrev pub State : Type 0
State = ApprovalGate × World

module _ {E : Type 0} where
  -- The function that comes with a call on an id: it notes that it ran, and may fail.
  abbrev pub noting : Str → Option E → Execute World E
  noting id err = some (λ w. (id ∷ w, err))

  unfoldable pub after_call : Call E → State → State
  after_call (proposing request_id req) (g, w) = ((propose {E = E} request_id req g).0, w)
  after_call (resolving id approved err) (g, w) =
      let run = resolve id approved (noting id err) g w in (run.0, run.1)

  unfoldable pub after_calls : List (Call E) → State → State
  unfolding after_call
  after_calls [] s = s
  after_calls (call ∷ calls) s = after_calls calls (after_call call s)

-- `NewApprovalGate`
abbrev pub new_gate : Option (List Event) → ApprovalGate
new_gate recorder = record { recorder = recorder; store = []; counter = 0 }

unfoldable pub times_run : Str → World → ℕ
times_run id [] = 0
times_run id (ran ∷ w) = let rest = times_run id w in if str_eq ran id then suc rest else rest

-- How often the function of an action has to have run, by what is stored of it.
abbrev pub runs_of : Option ActionProposal → ℕ
runs_of none = 0
runs_of (some p) = if str_eq p.status approved_status then 1 else 0

-- The invariant of a history.
record Inv (s : State) : Type 0 where
  numbered : IsNumbered s.0
  ran : (id : Str) → times_run id s.1 ≡ runs_of (lookup id s.0.store)

pending-ne-approved : pending ≢ approved_status
unfolding lit
pending-ne-approved = ground arith

pending_runs : (p : ActionProposal) → p.status ≡ pending → runs_of (some p) ≡ 0
pending_runs p h =
    ground (arith, str_eq-eq_false p.status approved_status (λ x. pending-ne-approved (sym h ∙ x)))

decided_runs :
    (approved : Bool) (p : ActionProposal)
    → runs_of (some (with_status (decided_status approved) p)) ≡ (if approved then 1 else 0)
unfolding lit str_eq
decided_runs true p = refl
decided_runs false p = refl

proposing-Inv :
    (request_id : Str) (req : ActionRequest) (g : ApprovalGate) (w : World)
    → g.counter + 1 < 2 ^ 64
    → Inv (g, w)
    → Inv (accepted request_id req g, w)
unfolding record_event store_put
proposing-Inv request_id req g w h inv =
    let p = proposal_for request_id req g in
    record {
      numbered = accepted-IsNumbered request_id req g h inv.numbered;
      ran = λ id. elim (Bool-cases (str_eq id p.id)) [
        | inl same ↦
            let name = (str_eq_iff id p.id).0 same in
            inv.ran id
            ∙ (ap (λ i. runs_of (lookup i g.store)) name
                ∙ (ap runs_of (fresh g inv.numbered h)
                    ∙ (sym (pending_runs p refl)
                        ∙ (ap runs_of (sym (lookup-put p.id p g.store))
                            ∙ ap (λ i. runs_of (lookup i (put p.id p g.store))) (sym name)))))
        | inr differs ↦
            inv.ran id
            ∙ ap runs_of (
                sym (
                  lookup-put_other p.id id p g.store
                    (λ x. ground (arith, differs, str_eq_iff id p.id, x))))
      ];
    }

times_run_skip :
    (other id : Str) (approved : Bool) (w : World)
    → str_eq id other ≡ false
    → times_run other (if approved then id ∷ w else w) ≡ times_run other w
unfolding times_run
times_run_skip other id true w e = rw (e, times_run)
times_run_skip other id false w e = refl

times_run_hit :
    (other id : Str) (approved : Bool) (w : World)
    → str_eq id other ≡ true
    → times_run other w ≡ 0
    → times_run other (if approved then id ∷ w else w) ≡ (if approved then 1 else 0)
unfolding times_run
times_run_hit other id true w e z = rw (e, z, times_run)
times_run_hit other id false w e z = z

deciding-Inv :
    (id : Str) (p : ActionProposal) (approved : Bool) (g : ApprovalGate) (w : World)
    → lookup id g.store ≡ some p
    → p.status ≡ pending
    → Inv (g, w)
    → Inv (decided id approved p g, if approved then id ∷ w else w)
unfolding record_event
deciding-Inv id p approved g w e h inv =
    let q = with_status (decided_status approved) p in
    let (k, name, le) = inv.numbered id p e in
    record {
      numbered =
          put-IsNumbered g (decided id approved p g) id q k refl name le (omega arith) inv.numbered;
      ran = λ other. elim (Bool-cases (str_eq id other)) [
        | inl same ↦
            let name = (str_eq_iff id other).0 same in
            times_run_hit other id approved w same (
              inv.ran other
              ∙ (ap (λ i. runs_of (lookup i g.store)) (sym name)
                  ∙ (ap runs_of e ∙ pending_runs p h)))
            ∙ (sym (decided_runs approved p)
                ∙ (ap runs_of (sym (lookup-decided id g approved p))
                    ∙ ap (λ i. runs_of (lookup i (decided id approved p g).store)) name))
        | inr differs ↦
            times_run_skip other id approved w differs
            ∙ (inv.ran other
                ∙ ap runs_of (
                    sym (
                      lookup-decided_other id g approved p other
                        (λ x. ground (arith, differs, str_eq_iff id other, sym x)))))
      ];
    }

-- One call keeps the invariant, and counts one proposal at most.
Kept : ApprovalGate → State → Type 0
Kept g s = Inv s × (s.0.counter ≤ g.counter + 1)

module _ (g : ApprovalGate) (w : World) (h : g.counter + 1 < 2 ^ 64) (inv : Inv (g, w)) where
  unmoved : Kept g (g, w)
  unfolding Kept
  unmoved = (inv, omega arith)

  proposing-Kept :
      (E : Type 0) (request_id : Str) (req : ActionRequest)
      → Kept g ((propose {E = E} request_id req g).0, w)
  unfolding Kept record_event
  proposing-Kept E request_id req = elim (Option-cases (validate_action_request {E = E} req)) [
    | inl e ↦
        subst (λ (r : ApprovalGate × (GateError E ⊎ ActionProposal)). Kept g (r.0, w))
          (sym (propose_accepts request_id req g e))
          (proposing-Inv request_id req g w h inv, omega (arith, next_count_lem g h))
    | inr (err, e) ↦
        subst (λ (r : ApprovalGate × (GateError E ⊎ ActionProposal)). Kept g (r.0, w))
          (sym (propose_refuses request_id req g err e)) unmoved
  ]

  -- What a call to resolve makes of the state.
  Answers : {E : Type 0} → ApprovalGate × World × Resolution E → Type 0
  Answers r = Kept g (r.0, r.1)

  decided-Answers :
      {E : Type 0} (id : Str) (approved : Bool) (err : Option E) (p : ActionProposal)
      → lookup id g.store ≡ some p
      → p.status ≡ pending
      → Answers (resolve id approved (noting id err) g w)
  unfolding Kept record_event Answers run_execute
  decided-Answers id true err p e pend =
      subst Answers (sym (resolve_approved id (noting id err) g w p e pend))
        (deciding-Inv id p true g w e pend inv, omega arith)
  decided-Answers id false err p e pend =
      subst Answers (sym (resolve_denied id (noting id err) g w p e pend))
        (deciding-Inv id p false g w e pend inv, omega arith)

  resolving-Kept :
      {E : Type 0} (id : Str) (approved : Bool) (err : Option E)
      → Answers (resolve id approved (noting id err) g w)
  unfolding Answers
  resolving-Kept id approved err = elim (Option-cases (lookup id g.store)) [
    | inl e ↦ subst Answers (sym (resolve_missing id approved (noting id err) g w e)) unmoved
    | inr (p, e) ↦ elim (Bool-cases (str_eq p.status pending)) [
      | inl same ↦ decided-Answers id approved err p e ((str_eq_iff p.status pending).0 same)
      | inr other ↦
          subst Answers
            (sym (
              resolve_settled id approved (noting id err) g w p e
                (ground (arith, str_eq_iff p.status pending))))
            unmoved
    ]
  ]

  after_call-Kept : {E : Type 0} (call : Call E) → Kept g (after_call call (g, w))
  unfolding after_call Answers
  after_call-Kept (proposing request_id req) = proposing-Kept _ request_id req
  after_call-Kept (resolving id approved err) = resolving-Kept id approved err

after_calls-Inv :
    {E : Type 0} (calls : List (Call E)) (s : State)
    → s.0.counter + length calls < 2 ^ 64
    → Inv s
    → Inv (after_calls calls s)
unfolding after_calls Kept
after_calls-Inv [] s h inv = inv
after_calls-Inv (call ∷ calls) s h inv =
    let (kept, counted) = after_call-Kept s.0 s.1 (omega arith) inv call in
    after_calls-Inv calls (after_call call s) (omega (arith, counted)) kept

-- After fewer than 2^64 calls on a new gate, each of which ends before the next one begins, the
-- function of an action has run exactly once if the action is stored as approved, and never if it
-- is stored as pending or denied or not at all.
pub history-runs_once :
    {E : Type 0} (recorder : Option (List Event)) (calls : List (Call E)) (id : Str)
    → length calls < 2 ^ 64
    → let (g, ran) = after_calls calls (new_gate recorder, []) in
      times_run id ran ≡ runs_of (lookup id g.store)
unfolding times_run lookup
history-runs_once recorder calls id h =
    (after_calls-Inv calls (new_gate recorder, []) (omega arith)
        (record { numbered = λ other p e. cc; ran = λ other. refl })).ran
      id
