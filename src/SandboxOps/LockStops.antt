-- ===== src/SandboxOps/LockStops.antt =====
-- `StopSandbox` and `ListSandboxes` release the lock that they take.
use rwx.Prelude.{Bool, true, List, [], ◌∷◌, Bytes, codes}
use rwx.Prelude.Dict.{Dict}
use rwx.Prelude.Leads.{Leads, Leads-then, Leads-bind, Leads-return}
use rwx.Sandbox.Key.{Panic}
use rwx.Sandbox.Storage.{SandboxSession, SandboxStorage}
use rwx.SandboxOps.World.{RunSummary, Outside}
use rwx.SandboxOps.Locks.{LockState, LockIn, Released, Locked, log_recorded-Leads}
use rwx.SandboxOps.LockRules.{lock_rules}
use rwx.SandboxOps.LockLaws.{wait_for_sandbox_completion-Leads}
use rwx.SandboxOps.Stop.{
  StopSandboxConfig, Keyed, pass_panic, cancel_by_api, end_run, close_sandbox_tunnels, stop_run,
  stop_all, branch_sessions, select_sessions, stop_selected, stop_loaded, stop_sandbox, delete_key,
}
use rwx.SandboxOps.Listing.{
  is_alive, is_active, walk_sessions, prune, save_if_changed, list_merged, list_loaded,
  list_sandboxes,
}

module _ (fits : LockState → Bool) where
  pass_panic-Leads {ℓ} :
      {V : Type ℓ} (p : Panic) → Leads (LockIn fits) (LockIn fits) (pass_panic {V = V} p)
  unfolding pass_panic
  pass_panic-Leads p = Leads-return (LockIn fits) _

  module _ (o : Outside) where
    cancel_by_api-Leads :
        (s : SandboxSession) → Leads (LockIn fits) (LockIn fits) (cancel_by_api o s)
    unfolding cancel_by_api
    cancel_by_api-Leads s = search lock_rules depth 14

    end_run-Leads : (s : SandboxSession) → Leads (LockIn fits) (LockIn fits) (end_run o s)
    unfolding end_run
    end_run-Leads s = search (lock_rules, cancel_by_api-Leads) depth 14 fits 4000

    close_sandbox_tunnels-Leads :
        (run_id : Bytes) → Leads (LockIn fits) (LockIn fits) (close_sandbox_tunnels o run_id)
    unfolding close_sandbox_tunnels
    close_sandbox_tunnels-Leads run_id = search lock_rules depth 14

    pub stop_run-Leads : (s : SandboxSession) → Leads (LockIn fits) (LockIn fits) (stop_run o s)
    unfolding stop_run
    stop_run-Leads s =
        search
          (
            lock_rules, end_run-Leads, wait_for_sandbox_completion-Leads,
            close_sandbox_tunnels-Leads,
          )
          depth 14 fits 4000

    stop_all-Leads :
        (s : SandboxStorage) (chosen : List Keyed)
        → Leads (LockIn fits) (LockIn fits) (stop_all o s chosen)
    unfolding stop_all
    stop_all-Leads s [] = search lock_rules
    stop_all-Leads s ((key, session) ∷ chosen) =
        let rest : Leads (LockIn fits) (LockIn fits) (stop_all o (delete_key s key) chosen) =
          stop_all-Leads (delete_key s key) chosen in
        Leads-bind (LockIn fits) (LockIn fits) (stop_run o session) _ (stop_run-Leads session) (λ b.
          Leads-then (LockIn fits) (LockIn fits) _ _
            (log_recorded-Leads fits (codes "sandbox.stop"))
            (Leads-bind (LockIn fits) (LockIn fits) _ _ rest
              (λ later. Leads-return (LockIn fits) _)))

    is_active-Leads :
        (runs : List RunSummary) (s : SandboxSession)
        → Leads (LockIn fits) (LockIn fits) (is_active o runs s)
    unfolding is_active is_alive
    is_active-Leads runs s = search lock_rules depth 14

    walk_sessions-Leads :
        (runs : List RunSummary) (d : Dict Bytes SandboxSession)
        → Leads (LockIn fits) (LockIn fits) (walk_sessions o runs d)
    unfolding walk_sessions
    walk_sessions-Leads runs [] = search lock_rules
    walk_sessions-Leads runs ((key, session) ∷ rest) =
        Leads-bind (LockIn fits) (LockIn fits) (is_active o runs session) _
          (is_active-Leads runs session)
          (λ b.
            Leads-bind (LockIn fits) (LockIn fits) _ _ (walk_sessions-Leads runs rest)
              (λ later. Leads-return (LockIn fits) _))

    prune-Leads :
        (s : SandboxStorage) (expired : List (Bytes × Bytes))
        → Leads (LockIn fits) (LockIn fits) (prune o s expired)
    unfolding prune
    prune-Leads s [] = search lock_rules
    prune-Leads s ((key, run_id) ∷ expired) =
        search (lock_rules, close_sandbox_tunnels-Leads, prune-Leads (delete_key s key) expired)
          depth 14

module _ (o : Outside) where
  branch_sessions-Leads :
      (s : SandboxStorage) → Leads (Locked true) (Locked true) (branch_sessions o s)
  unfolding branch_sessions
  branch_sessions-Leads s = search (lock_rules, pass_panic-Leads) depth 14 fits 4000

  select_sessions-Leads :
      (s : SandboxStorage) (cfg : StopSandboxConfig)
      → Leads (Locked true) (Locked true) (select_sessions o s cfg)
  unfolding select_sessions
  select_sessions-Leads s cfg =
      search (lock_rules, pass_panic-Leads, branch_sessions-Leads) depth 14 fits 4000

  stop_selected-Leads :
      (s : SandboxStorage) (chosen : List Keyed)
      → Leads (Locked true) (Locked true) (stop_selected o s chosen)
  unfolding stop_selected
  stop_selected-Leads s chosen = search (lock_rules, stop_all-Leads) depth 14 fits 4000

  stop_loaded-Leads :
      (cfg : StopSandboxConfig) → Leads (Locked true) (Locked true) (stop_loaded o cfg)
  unfolding stop_loaded
  stop_loaded-Leads cfg =
      search (lock_rules, select_sessions-Leads, stop_selected-Leads) depth 14 fits 4000

  pub stop_sandbox-Leads : (cfg : StopSandboxConfig) → Leads Released Released (stop_sandbox o cfg)
  unfolding stop_sandbox
  stop_sandbox-Leads cfg = search (lock_rules, stop_loaded-Leads) depth 14 fits 4000

  save_if_changed-Leads :
      (s : SandboxStorage) (changed : Bool)
      → Leads (Locked true) (Locked true) (save_if_changed o s changed)
  unfolding save_if_changed
  save_if_changed-Leads s changed = search lock_rules depth 14

  list_merged-Leads :
      (runs : List RunSummary) (merged : SandboxStorage × Bool)
      → Leads (Locked true) (Locked true) (list_merged o runs merged)
  unfolding list_merged
  list_merged-Leads runs (s, changed) =
      search (lock_rules, walk_sessions-Leads, prune-Leads, save_if_changed-Leads) depth 14 fits
        4000

  list_loaded-Leads : Leads (Locked true) (Locked true) (list_loaded o)
  unfolding list_loaded
  list_loaded-Leads = search (lock_rules, pass_panic-Leads, list_merged-Leads) depth 14 fits 4000

  pub list_sandboxes-Leads : Leads Released Released (list_sandboxes o)
  unfolding list_sandboxes
  list_sandboxes-Leads = search (lock_rules, list_loaded-Leads) depth 14 fits 4000
