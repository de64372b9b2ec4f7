-- ===== src/SandboxOps/Check.antt =====
-- internal/cli/service_sandbox.go: `CheckExistingSandbox` and the save with telemetry.
use rwx.Prelude.{
  Bool, true, false, ◌&&◌, not, Option, none, some, [], ◌==◌, bytes_eq, bytes_beq, Bytes, codes,
  if◌then◌else◌,
}
use rwx.Prelude.Result.{Result, ok, err}
use rwx.Prelude.Traced.{◌>>=◌, ◌>>◌, return, log, on_error, on_result}
use rwx.Errors.{GoError, wrap}
use rwx.Sandbox.Key.{is_detached_branch}
use rwx.Sandbox.Storage.{SandboxSession, SandboxStorage, get_session}
use rwx.Sandbox.Storage.Ancestry.{get_session_by_ancestry}
use rwx.Sandbox.Storage.Persist.{has_changes, has_migration}
use rwx.SandboxOps.World.{
  unlocked, recorded, Op, Outside, OpFailure, fails, crash, current_branch,
  lock_sandbox_storage_with_info, load_sessions, save_sessions, get_connection_info,
}

pub record CheckExistingSandboxResult : Type 0 where
  pub exists : Bool
  pub active : Bool
  pub run_id : Bytes
  pub run_url : Bytes
  pub config_file : Bytes

abbrev pub no_sandbox : CheckExistingSandboxResult
no_sandbox = record { exists = false; active = false; run_id = []; run_url = []; config_file = [] }

abbrev pub inactive : SandboxSession → CheckExistingSandboxResult
inactive s = record {
  exists = true;
  active = false;
  run_id = s.run_id;
  run_url = [];
  config_file = s.config_file;
}

module _ (o : Outside) where
  -- The session of the branch, or of an ancestor of a detached HEAD, which is then saved again; and the rest.
  unfoldable pub find_session :
      SandboxStorage
      → Bytes
      → (Option SandboxSession → Op (Result OpFailure CheckExistingSandboxResult))
      → Op (Result OpFailure CheckExistingSandboxResult)
  find_session storage config_file rest =
      on_result (get_session storage (current_branch o) config_file) (crash err) (λ found.
        on_error found (λ session. rest (some session))
          (if is_detached_branch (current_branch o)
            then on_result
                (get_session_by_ancestry o.is_ancestor storage (current_branch o) config_file)
                (crash err)
                (λ moved.
                  on_error moved.1
                    (λ session. do ignored ← save_sessions o moved.0; rest (some session))
                    (rest none))
            else rest none))

  -- Whether the run of a session is active.
  unfoldable pub check_session : SandboxSession → Op CheckExistingSandboxResult
  check_session session = do
    answer ← get_connection_info o session.run_id session.scoped_token
    return (elim answer [
      | err e ↦ inactive session
      | ok info ↦ if info.completed && not info.sandboxable then inactive session else record {
        exists = true;
        active = true;
        run_id = session.run_id;
        run_url = session.run_url;
        config_file = session.config_file;
      }
    ])

  unfoldable pub check_existing_sandbox : Bytes → Op (Result OpFailure CheckExistingSandboxResult)
  check_existing_sandbox config_file = do
    lock_err ← lock_sandbox_storage_with_info o
    on_error lock_err (λ e. return (err (fails (wrap (codes "unable to lock sandbox storage") e))))
        (do
          loaded ← load_sessions o
          on_result loaded (λ e. do log unlocked; return (ok no_sandbox))
              (λ storage. find_session storage config_file (λ session. do
                log unlocked
                on_error session (λ s. do result ← check_session s; return (ok result))
                    (return (ok no_sandbox)))))

  -- `saveSandboxStorageWithTelemetry`, with the reason that is recorded; durations are left out.
  unfoldable pub save_sandbox_storage_with_telemetry :
      SandboxStorage → Bytes → Bool → Op (Option GoError)
  unfolding bytes_beq
  save_sandbox_storage_with_telemetry storage reason skip_unchanged =
      if skip_unchanged && not (has_changes storage)
      then (do log (recorded (codes "skipped")); return none)
      else (do
        failed ← save_sessions o storage
        log (
            recorded (
              if has_migration storage && reason == codes "unchanged"
              then codes "migration"
              else reason))
        return failed)
