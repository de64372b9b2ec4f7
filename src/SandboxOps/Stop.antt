-- ===== src/SandboxOps/Stop.antt =====
-- internal/cli/service_sandbox.go: `StopSandbox`.
use rwx.Prelude.{
  Bool, true, false, not, Option, none, some, List, [], ◌∷◌, ◌++◌, bytes_eq, Bytes, codes,
  if◌then◌else◌,
}
use rwx.Prelude.Dict.{del}
use rwx.Prelude.Result.{Result, ok, err}
use rwx.Prelude.Traced.{◌>>=◌, ◌>>◌, return, log, on_error, on_result, on_empty}
use rwx.Errors.{new_error, error, wrap}
use rwx.Sandbox.Key.{Panic, is_detached_branch, session_key}
use rwx.Sandbox.Storage.{SandboxSession, SandboxStorage, find_by_run_id, get_sessions_for_branch}
use rwx.Sandbox.Storage.Ancestry.{get_sessions_for_branch_by_ancestry}
use rwx.SandboxOps.World.{
  unlocked, ended_by_ssh, warned, recorded, Op, Outside, OpFailure, fails, panics, current_branch,
  lock_sandbox_storage_with_info, load_sessions, save_sessions, get_connection_info, connect_ssh,
  cancel_run, close_all_tunnels,
}
use rwx.SandboxOps.Waiting.{wait_for_sandbox_completion}

pub record StopSandboxConfig : Type 0 where
  pub all : Bool
  pub run_id : Bytes

pub record StoppedSandbox : Type 0 where
  pub run_id : Bytes
  pub was_running : Bool

-- `delete(storage.Sandboxes, key)`
unfoldable pub delete_key : SandboxStorage → Bytes → SandboxStorage
delete_key s key = record s { sandboxes = del s.sandboxes key }

-- How a run was ended; `none` if it was not running.
pub data CancelMethod : Type 0 where
  by_ssh by_api : CancelMethod

abbrev pub Keyed : Type 0
Keyed = Bytes × SandboxSession

-- The keys under which the sessions of a branch are stored.
unfoldable pub with_keys : Bytes → List SandboxSession → Result Panic (List Keyed)
with_keys branch [] = ok []
with_keys branch (session ∷ sessions) =
    let rest = with_keys branch sessions in
    elim (session_key branch session.config_file) [
      | err p ↦ err p
      | ok key ↦ elim rest [ err p ↦ err p | ok keyed ↦ ok ((key, session) ∷ keyed) ]
    ]

-- A panic that runs through the deferred release of the lock.
unfoldable pub pass_panic {ℓ} : {V : Type ℓ} → Panic → Op (Result OpFailure V)
pass_panic p = return (err (panics p))

module _ (o : Outside) where
  unfoldable pub cancel_by_api : SandboxSession → Op (Option CancelMethod)
  cancel_by_api session = do
    failed ← cancel_run o session.run_id session.scoped_token
    on_error failed
        (λ e. do
          log (
              warned (
                codes "Warning: failed to cancel run "
                ++ session.run_id
                ++ codes ": "
                ++ error e
                ++ codes "\n"))
          return (some by_api))
        (return (some by_api))

  -- An active sandbox is told to end over SSH, or failing that cancelled, as is a run that is not ready.
  unfoldable pub end_run : SandboxSession → Op (Option CancelMethod)
  end_run session = do
    answer ← get_connection_info o session.run_id session.scoped_token
    on_result answer (λ e. return none)
        (λ info.
          if info.sandboxable
          then (do
            unreachable ← connect_ssh o
            on_error unreachable (λ e. cancel_by_api session)
                (do log ended_by_ssh; return (some by_ssh)))
          else if not info.completed
          then cancel_by_api session
          else return none)

  unfoldable pub close_sandbox_tunnels : Bytes → Op (Unit {0})
  close_sandbox_tunnels run_id = do
    failed ← close_all_tunnels o run_id
    on_error failed
        (λ e. log (
          warned (
            codes "Warning: failed to close local tunnels for sandbox "
            ++ run_id
            ++ codes ": "
            ++ error e
            ++ codes "\n")))
        (return tt)

  -- The run is ended and over, and its tunnels are closed; whether it was running.
  unfoldable pub stop_run : SandboxSession → Op Bool
  stop_run session = do
    method ← end_run session
    on_error method
        (λ m. do
          over ← wait_for_sandbox_completion o session.run_id session.scoped_token
          close_sandbox_tunnels session.run_id
          return true)
        (do close_sandbox_tunnels session.run_id; return false)

  unfoldable pub stop_all : SandboxStorage → List Keyed → Op (SandboxStorage × List StoppedSandbox)
  stop_all storage [] = return (storage, [])
  stop_all storage ((key, session) ∷ rest) = do
    was_running ← stop_run session
    log (recorded (codes "sandbox.stop"))
    later ← stop_all (delete_key storage key) rest
    return (later.0, record { run_id = session.run_id; was_running = was_running } ∷ later.1)

  -- The sessions of the branch, or of the ancestors of a detached HEAD, which are then saved again.
  unfoldable pub branch_sessions :
      SandboxStorage → Op (Result OpFailure (SandboxStorage × List SandboxSession))
  branch_sessions storage =
      on_empty (get_sessions_for_branch storage (current_branch o))
        (if is_detached_branch (current_branch o)
          then on_result
              (get_sessions_for_branch_by_ancestry o.is_ancestor storage (current_branch o))
              pass_panic
              (λ moved. on_empty moved.1 (return (ok (moved.0, []))) (λ session sessions. do
                ignored ← save_sessions o moved.0
                return (ok (moved.0, session ∷ sessions))))
          else return (ok (storage, [])))
        (λ session sessions. return (ok (storage, session ∷ sessions)))

  -- What is to be stopped.
  unfoldable pub select_sessions :
      SandboxStorage → StopSandboxConfig → Op (Result OpFailure (SandboxStorage × List Keyed))
  select_sessions storage cfg =
      if cfg.all
      then return (ok (storage, storage.sandboxes))
      else on_empty cfg.run_id
          (do
            chosen ← branch_sessions storage
            on_result chosen (λ e. return (err e))
                (λ found.
                  on_empty found.1
                    (return (
                      err (
                        fails (
                          new_error (
                            codes "No sandbox found for branch "
                            ++ current_branch o
                            ++ codes
                                ".\nUse 'rwx sandbox list' to see available sandboxes, or use --id to specify a run ID.")))))
                    (λ session sessions.
                      on_result (with_keys (current_branch o) (session ∷ sessions)) pass_panic
                        (λ keyed. return (ok (found.0, keyed))))))
          (λ c run_id.
            on_error (find_by_run_id storage (c ∷ run_id))
              (λ entry. return (ok (storage, entry ∷ [])))
              (return (
                err (
                  fails (
                    new_error (
                      codes "Sandbox with run ID '"
                      ++ (c ∷ run_id)
                      ++ codes
                          "' not found in local storage.\nUse 'rwx sandbox list' to see available sandboxes."))))))

  -- The sessions are stopped and the others saved.
  unfoldable pub stop_selected : SandboxStorage → List Keyed → Op (List StoppedSandbox)
  stop_selected storage chosen = do
    stopped ← stop_all storage chosen
    failed ← save_sessions o stopped.0
    on_error failed
        (λ e. do
          log (warned (codes "Warning: Unable to save sandbox sessions: " ++ error e ++ codes "\n"))
          return stopped.1)
        (return stopped.1)

  unfoldable pub stop_loaded : StopSandboxConfig → Op (Result OpFailure (List StoppedSandbox))
  stop_loaded cfg = do
    loaded ← load_sessions o
    on_result loaded (λ e. return (err (fails (wrap (codes "unable to load sandbox sessions") e))))
        (λ storage. do
          selected ← select_sessions storage cfg
          on_result selected (λ e. return (err e))
              (λ chosen. do stopped ← stop_selected chosen.0 chosen.1; return (ok stopped)))

  unfoldable pub stop_sandbox : StopSandboxConfig → Op (Result OpFailure (List StoppedSandbox))
  stop_sandbox cfg = do
    lock_err ← lock_sandbox_storage_with_info o
    on_error lock_err (λ e. return (err (fails (wrap (codes "unable to lock sandbox storage") e))))
        (do result ← stop_loaded cfg; log unlocked; return result)
