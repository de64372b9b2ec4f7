-- ===== src/SandboxOps/Reset.antt =====
-- internal/cli/service_sandbox.go: `ResetSandbox`.
use rwx.Prelude.{ℕ, Bool, true, false, Option, none, some, [], Bytes, codes, if◌then◌else◌}
use rwx.Prelude.Result.{Result, ok, err}
use rwx.Prelude.Traced.{◌>>=◌, ◌>>◌, return, log, on_error, on_result}
use rwx.Sandbox.Key.{is_detached_branch}
use rwx.Sandbox.Storage.{SandboxSession, SandboxStorage, get_session, delete_session}
use rwx.Sandbox.Storage.Ancestry.{get_session_by_ancestry}
use rwx.SandboxOps.World.{
  recorded, Op, Outside, OpFailure, crash, current_branch, lock_sandbox_storage_with_info,
  load_sessions, save_sessions,
}
use rwx.SandboxOps.Stop.{stop_run}
use rwx.SandboxOps.Start.{outcome, warning, start_sandbox}

pub record ResetSandboxResult : Type 0 where
  pub old_run_id : Bytes
  pub new_run_id : Bytes
  pub run_url : Bytes

abbrev pub ResetOutcome : Type 0
ResetOutcome = Result OpFailure ResetSandboxResult

module _ (o : Outside) where
  -- The session to reset, and the storage with it under the current key; and the rest.
  unfoldable pub old_session :
      SandboxStorage
      → Bytes
      → (SandboxStorage → Option SandboxSession → Op ResetOutcome)
      → Op ResetOutcome
  old_session storage config_file rest =
      on_result (get_session storage (current_branch o) config_file) (crash err) (λ found.
        on_error found (λ session. rest storage (some session))
          (if is_detached_branch (current_branch o)
            then on_result
                (get_session_by_ancestry o.is_ancestor storage (current_branch o) config_file)
                (crash err) (λ moved. rest moved.0 moved.1)
            else rest storage none))

  -- The old run is stopped and its session removed.
  unfoldable pub remove_old :
      SandboxStorage → Bytes → (Bytes → Op ResetOutcome) → SandboxSession → Op ResetOutcome
  remove_old storage config_file rest session = do
    was_running ← stop_run o session
    on_result (delete_session storage (current_branch o) config_file) (crash err) (λ removed. do
      failed ← save_sessions o removed
      on_error failed
          (λ e. do log (warning (codes "Unable to save sandbox sessions") e); rest session.run_id)
          (rest session.run_id))

  -- What stands before the start; the rest is given the old run's id.
  unfoldable pub stop_old : Bytes → (Bytes → Op ResetOutcome) → Op ResetOutcome
  stop_old config_file rest = do
    loaded ← load_sessions o
    on_result loaded (λ e. do log (warning (codes "Unable to load sandbox sessions") e); rest [])
        (λ storage.
          old_session storage config_file
            (λ moved found. on_error found (remove_old moved config_file rest) (rest [])))

  -- The new sandbox is started with the lock that the old one was removed under.
  unfoldable pub start_again : ℕ → Bytes → Bool → Bool → Bytes → Op ResetOutcome
  start_again fuel config_file wait has_lock old_run_id = do
    begun ←
        start_sandbox o fuel
          (record { config_file = config_file; run_id = []; wait = wait; storage_lock = has_lock })
    on_result (outcome begun) (λ e. return (err e))
        (λ r. do
          log (recorded (codes "sandbox.reset"))
          return
              (ok (record { old_run_id = old_run_id; new_run_id = r.run_id; run_url = r.run_url })))

  unfoldable pub reset_sandbox : ℕ → Bytes → Bool → Op ResetOutcome
  reset_sandbox fuel config_file wait = do
    lock_err ← lock_sandbox_storage_with_info o
    on_error lock_err
        (λ e. do
          log (warning (codes "Unable to lock sandbox storage") e)
          stop_old config_file (start_again fuel config_file wait false))
        (stop_old config_file (start_again fuel config_file wait true))
