-- ===== src/Agent/Approval/Resolve.antt =====
-- The branches of `ApprovalGate.Resolve`.
use rillan.Base.{
  ◌≡◌, ◌≢◌, ap, ◌∙◌, Bool, true, false, if◌then◌else◌, none, some, arith, Str, lookup, str_eq,
  str_eq_iff, str_eq-eq_false, Option-cases, Bool-cases, ◌⊎◌, inl, inr,
}
use rillan.Base.Map.{put, lookup-put, lookup-put_other}
use rillan.Agent.Approval.{
  ActionProposal, ApprovalGate, GateError, Execute, Resolution, resolve, resolve_check,
  resolve_commit, run_execute, record_event, update_status, store_get, approved_status,
  denied_status, with_status, pending, decision_event,
}

abbrev pub decided_status : Bool → Str
decided_status approved = if approved then approved_status else denied_status

-- The gate after a decision on a stored proposal.
abbrev pub decided : Str → Bool → ActionProposal → ApprovalGate → ApprovalGate
decided id approved p g =
    record_event (decision_event approved (with_status (decided_status approved) p)) (record {
      recorder = g.recorder;
      store = put id (with_status (decided_status approved) p) g.store;
      counter = g.counter;
    })

module _ {W E : Type 0} (id : Str) (approved : Bool) (execute : Execute W E) (g : ApprovalGate)
    (w : W) where
  pub resolve_missing :
      lookup id g.store ≡ none
      → resolve id approved execute g w
        ≡ (g, w, record { proposal = none; error = some GateError.not_found })
  unfolding resolve resolve_check store_get
  resolve_missing e = rw (e, resolve)

  pub resolve_settled :
      (p : ActionProposal)
      → lookup id g.store ≡ some p
      → p.status ≢ pending
      → resolve id approved execute g w
        ≡ (g, w, record { proposal = some p; error = some (GateError.already p.id p.status) })
  unfolding resolve resolve_check store_get
  resolve_settled p e ne = rw (e, str_eq-eq_false p.status pending ne, resolve)

  pub check_pending :
      (p : ActionProposal)
      → lookup id g.store ≡ some p
      → p.status ≡ pending
      → resolve_check {E = E} id g.store ≡ none
  unfolding resolve_check store_get
  check_pending p e h = rw (e, (str_eq_iff p.status pending).1 h, resolve_check)

  pub resolve_open :
      resolve_check {E = E} id g.store ≡ none
      → resolve id approved execute g w ≡ resolve_commit id approved execute g w
  unfolding resolve
  resolve_open e = rw (e, resolve)

module _ {W E : Type 0} (id : Str) (execute : Execute W E) (g : ApprovalGate) (w : W)
    (p : ActionProposal) (e : lookup id g.store ≡ some p) where
  pub commit_denied : resolve_commit id false execute g w ≡ (
    decided id false p g,
    w,
    record {
      proposal = some (with_status denied_status p);
      error = some GateError.approval_required;
    },
  )
  unfolding resolve_commit update_status
  commit_denied = rw (e, resolve_commit)

  pub commit_approved : resolve_commit id true execute g w ≡ (
    decided id true p g,
    (run_execute execute w).0,
    record { proposal = some (with_status approved_status p); error = (run_execute execute w).1 },
  )
  unfolding resolve_commit update_status
  commit_approved = rw (e, resolve_commit)

  pub resolve_denied :
      p.status ≡ pending
      → resolve id false execute g w ≡ (
        decided id false p g,
        w,
        record {
          proposal = some (with_status denied_status p);
          error = some GateError.approval_required;
        },
      )
  resolve_denied h =
      resolve_open id false execute g w (check_pending id false execute g w p e h) ∙ commit_denied

  pub resolve_approved :
      p.status ≡ pending
      → resolve id true execute g w ≡ (
        decided id true p g,
        (run_execute execute w).0,
        record {
          proposal = some (with_status approved_status p);
          error = (run_execute execute w).1;
        },
      )
  resolve_approved h =
      resolve_open id true execute g w (check_pending id true execute g w p e h) ∙ commit_approved

-- The parts of an answer, as they are of its value.
parts :
    {W E : Type 0} {x y : ApprovalGate × W × Resolution E}
    → x ≡ y
    → (x.0 ≡ y.0) × (x.1 ≡ y.1) × (x.2.error ≡ y.2.error)
parts r = (ap (λ x. x.0) r, ap (λ x. x.1) r, ap (λ x. x.2.error) r)

module _ (id : Str) (g : ApprovalGate) where
  pub lookup-decided :
      (approved : Bool) (p : ActionProposal)
      → lookup id (decided id approved p g).store ≡ some (with_status (decided_status approved) p)
  unfolding record_event
  lookup-decided approved p = lookup-put id (with_status (decided_status approved) p) g.store

  pub lookup-decided_other :
      (approved : Bool) (p : ActionProposal) (other : Str)
      → other ≢ id
      → lookup other (decided id approved p g).store ≡ lookup other g.store
  unfolding record_event
  lookup-decided_other approved p other ne =
      lookup-put_other id other (with_status (decided_status approved) p) g.store ne

module _ {W E : Type 0} (id : Str) (execute : Execute W E) (g : ApprovalGate) (w : W) where
  resolve-pending :
      (approved : Bool) (p : ActionProposal)
      → lookup id g.store ≡ some p
      → p.status ≡ pending
      → ((resolve id approved execute g w).0 ≡ decided id approved p g)
        × (approved ≡ false
            → ((resolve id approved execute g w).1 ≡ w)
              × ((resolve id approved execute g w).2.error ≡ some GateError.approval_required))
        × (approved ≡ true
            → ((resolve id approved execute g w).1 ≡ (run_execute execute w).0)
              × ((resolve id approved execute g w).2.error ≡ (run_execute execute w).1))
  resolve-pending false p e h =
      let (after, world, answer) = parts (resolve_denied id execute g w p e h) in
      (after, λ _. (world, answer), λ bad. cc)
  resolve-pending true p e h =
      let (after, world, answer) = parts (resolve_approved id execute g w p e h) in
      (after, λ bad. cc, λ _. (world, answer))

  -- The three cases of a call.
  resolve-cases :
      (approved : Bool)
      → ((resolve id approved execute g w).0 ≡ g)
        ⊎ ((p : ActionProposal) × ((resolve id approved execute g w).0 ≡ decided id approved p g))
  resolve-cases approved = elim (Option-cases (lookup id g.store)) [
    | inl e ↦ inl ((parts (resolve_missing id approved execute g w e)).0)
    | inr (p, e) ↦ elim (Bool-cases (str_eq p.status pending)) [
      | inl same ↦ inr (p, (resolve-pending approved p e ((str_eq_iff p.status pending).0 same)).0)
      | inr other ↦ inl (
          (parts (
            resolve_settled id approved execute g w p e
              (ground (arith, str_eq_iff p.status pending)))).0)
    ]
  ]

  -- What a call to resolve does to the store, the world and its caller. A proposal that is not
  -- there, or not pending, is left alone, and nothing runs. A pending one is denied, and nothing
  -- runs, or approved, and the function runs once; its failure is returned. No other proposal
  -- changes.
  pub resolve-branches :
      (approved : Bool)
      → let (after, world, answer) = resolve id approved execute g w in
        (lookup id g.store ≡ none
          → (after ≡ g) × (world ≡ w) × (answer.error ≡ some GateError.not_found))
        × ((p : ActionProposal)
            → lookup id g.store ≡ some p
            → (p.status ≢ pending
                → (after ≡ g)
                  × (world ≡ w)
                  × (answer.error ≡ some (GateError.already p.id p.status)))
              × (p.status ≡ pending
                  → (lookup id after.store
                      ≡ some (with_status (if approved then approved_status else denied_status) p))
                    × (approved ≡ false
                        → (world ≡ w) × (answer.error ≡ some GateError.approval_required))
                    × (approved ≡ true
                        → (world ≡ (run_execute execute w).0)
                          × (answer.error ≡ (run_execute execute w).1))))
        × ((other : Str) → other ≢ id → lookup other after.store ≡ lookup other g.store)
  resolve-branches approved = (
    λ e. parts (resolve_missing id approved execute g w e),
    λ p e. (
      λ ne. parts (resolve_settled id approved execute g w p e ne),
      λ h.
          let (after, denied, run) = resolve-pending approved p e h in
          (ap (λ x. lookup id x.store) after ∙ lookup-decided id g approved p, denied, run),
    ),
    λ other ne. elim (resolve-cases approved) [
      | inl same ↦ ap (λ x. lookup other x.store) same
      | inr (p, after) ↦
          ap (λ x. lookup other x.store) after ∙ lookup-decided_other id g approved p other ne
    ],
  )
