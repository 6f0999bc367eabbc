-- ===== src/Agent/Approval/Race.antt =====
-- Two calls to `Resolve` at once: the test and the update of `Resolve` take the mutex separately,
-- so both tests can come before both updates.
use rillan.Base.{◌≡◌, ap, ◌∙◌, Bool, true, false, none, some, Str, lookup}
use rillan.Agent.Approval.{
  ActionProposal, ApprovalGate, Execute, Resolution, resolve_check, resolve_commit, run_execute,
  with_status, approved_status, denied_status, pending,
}
use rillan.Agent.Approval.Resolve.{
  decided, check_pending, commit_approved, commit_denied, lookup-decided,
}

module _ {W E : Type 0} where
  -- Both calls test the store, and then each goes on as its test tells it, the first one first.
  unfoldable pub resolve_both :
      Str
      → (first second : Bool) → Execute W E
      → ApprovalGate
      → W
      → ApprovalGate × W × Resolution E × Resolution E
  resolve_both id first second execute g w = elim (resolve_check id g.store) [
    | some r ↦ (g, w, r, r)
    | none ↦
        let one = resolve_commit id first execute g w in
        let two = resolve_commit id second execute one.0 one.1 in (two.0, two.1, one.2, two.2)
  ]

  both_open :
      (id : Str) (first second : Bool) (execute : Execute W E) (g : ApprovalGate) (w : W)
      → resolve_check {E = E} id g.store ≡ none
      → resolve_both id first second execute g w ≡ (
          let one = resolve_commit id first execute g w in
          let two = resolve_commit id second execute one.0 one.1 in (two.0, two.1, one.2, two.2))
  unfolding resolve_both
  both_open id first second execute g w e = rw (e, resolve_both)

  -- Two approvals of a pending proposal whose tests both come first run its function twice. If
  -- the second call denies instead, the function has run, and the proposal is stored as denied.
  pub race-runs_twice :
      (id : Str) (execute : Execute W E) (g : ApprovalGate) (w : W) (p : ActionProposal)
      → lookup id g.store ≡ some p
      → p.status ≡ pending
      → ((resolve_both id true true execute g w).1
          ≡ (run_execute execute (run_execute execute w).0).0)
        × ((resolve_both id true false execute g w).1 ≡ (run_execute execute w).0)
        × (lookup id (resolve_both id true false execute g w).0.store
            ≡ some (with_status denied_status p))
  race-runs_twice id execute g w p e h =
      let check = check_pending id true execute g w p e h in
      let one = commit_approved id execute g w p e in
      let ran = (run_execute execute w).0 in
      let q = with_status approved_status p in
      let stored = lookup-decided id g true p in
      let denied = commit_denied id execute (decided id true p g) ran q stored in
      (
        ap (λ r. r.1) (both_open id true true execute g w check)
            ∙ (ap (λ r. (resolve_commit id true execute r.0 r.1).1) one
                ∙ ap (λ r. r.1) (commit_approved id execute (decided id true p g) ran q stored)),
        ap (λ r. r.1) (both_open id true false execute g w check)
            ∙ (ap (λ r. (resolve_commit id false execute r.0 r.1).1) one ∙ ap (λ r. r.1) denied),
        ap (λ r. lookup id r.0.store) (both_open id true false execute g w check)
            ∙ (ap (λ r. lookup id (resolve_commit id false execute r.0 r.1).0.store) one
                ∙ (ap (λ r. lookup id r.0.store) denied
                    ∙ lookup-decided id (decided id true p g) false q)),
      )
