-- ===== src/Runtime/Reload.antt =====
-- internal/app/runtime_manager.go and internal/httpapi/admin_reload_handler.go: the snapshot in use
-- and its refresh. A refresh runs under the manager's mutex, and is one step. net.SplitHostPort is
-- the parameter `split_host_port`, none for an error.
use rillan.Base.{
  ◌⊎◌, inl, inr, if◌then◌else◌, not, Bool, true, false, ℕ, Option, none, some, is_none, Str, lit,
  str_eq, to_lower,
}
use rillan.Config.Validate.{trim_host}

-- What a manager has as its current state.
pub record RuntimeManager (State : Type 0) : Type 0 where
  pub current : Option State

-- `Refresh`, given what the build comes to.
unfoldable pub refresh :
    {E State : Type 0} → E ⊎ State → RuntimeManager State → Option E × RuntimeManager State
refresh (inl err) manager = (some err, manager)
refresh (inr next) manager = (none, record { current = some next })

unfoldable pub is_loopback_request : (Str → Option Str) → (Str → Option Bool) → Str → Bool
is_loopback_request split_host_port parse_ip remote_addr =
    let host =
      trim_host
        (elim (split_host_port remote_addr) [ none ↦ remote_addr | some parsed ↦ parsed ]) in
    if str_eq (to_lower host) (lit "localhost")
    then true
    else elim (parse_ip host) [ none ↦ false | some is_loopback ↦ is_loopback ]

-- The handler: the status of its answer, and the manager after it. `build` is the build of its
-- refresh, where the handler has one.
unfoldable pub admin_reload :
    {E State : Type 0}
    → (Str → Option Str)
    → (Str → Option Bool)
    → Str
    → Str
    → Option (E ⊎ State)
    → RuntimeManager State
    → ℕ × RuntimeManager State
unfolding refresh
admin_reload split_host_port parse_ip method remote_addr build manager =
    if not (str_eq method (lit "POST"))
    then (405, manager)
    else if not (is_loopback_request split_host_port parse_ip remote_addr)
    then (403, manager)
    else elim build [
      | none ↦ (503, manager)
      | some built ↦
          let (failed, after) = refresh built manager in
          (if is_none failed then 204 else 500, after)
    ]
