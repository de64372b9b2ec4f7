-- ===== src/SandboxOps/Listing.antt =====
-- internal/cli/service_sandbox.go: `ListSandboxes`.
use rwx.Prelude.{
  Bool, true, false, ◌||◌, not, none, some, List, [], ◌∷◌, ◌++◌, ◌==◌, bytes_eq, bytes_beq, Bytes,
  codes, any, if◌then◌else◌,
}
use rwx.Prelude.Dict.{Dict}
use rwx.Prelude.Result.{Result, ok, err}
use rwx.Prelude.Traced.{◌>>=◌, ◌>>◌, return, log, on_error, on_result}
use rwx.Errors.{error, wrap}
use rwx.Sandbox.Key.{parse_session_key}
use rwx.Sandbox.Storage.{SandboxSession, SandboxStorage, get_session, set_session}
use rwx.SandboxOps.World.{
  RunSummary, unlocked, warned, recorded, Op, Outside, OpFailure, fails,
  lock_sandbox_storage_with_info, load_sessions, save_sessions, get_connection_info,
  list_sandbox_runs,
}
use rwx.Sandbox.Key.{Panic}
use rwx.SandboxOps.Stop.{pass_panic, delete_key, close_sandbox_tunnels}

pub record SandboxInfo : Type 0 where
  pub run_id : Bytes
  pub config_file : Bytes
  pub branch : Bytes

-- A session that is only known to the server.
unfoldable pub discovered : RunSummary → Bytes → SandboxSession
discovered run config_file = record {
  run_id = run.id;
  config_file = config_file;
  scoped_token = [];
  run_url = run.run_url;
  config_hash = [];
  created_at = none;
  last_exec_at = none;
  exec_count = 0;
  reset_nag_shown = false;
}

-- One run is merged: the storage, and whether it changed.
unfoldable pub merge_run : SandboxStorage × Bool → RunSummary → Result Panic (SandboxStorage × Bool)
unfolding discovered
merge_run (storage, changed) run = elim run.cli_state [
  | none ↦ ok (storage, changed)
  | some (branch, config_file) ↦ elim (get_session storage branch config_file) [
    | err p ↦ err p
    | ok (some session) ↦ ok (storage, changed)
    | ok none ↦ elim (set_session storage branch config_file (discovered run config_file)) [
      | err p ↦ err p
      | ok merged ↦ ok (merged, true)
    ]
  ]
]

unfoldable pub merge_runs :
    SandboxStorage × Bool → List RunSummary → Result Panic (SandboxStorage × Bool)
unfolding merge_run
merge_runs merged [] = ok merged
merge_runs merged (run ∷ runs) = elim (merge_run merged run) [
  | err p ↦ err p
  | ok next ↦ merge_runs next runs
]

unfoldable pub is_listed : List RunSummary → Bytes → Bool
unfolding bytes_beq
is_listed runs run_id = any (λ run. run.id == run_id) runs

unfoldable pub info_of : Bytes → SandboxSession → SandboxInfo
info_of key session = record {
  run_id = session.run_id;
  config_file = session.config_file;
  branch = (parse_session_key key).0;
}

-- The sandboxes that are active, and the keys of the expired sessions.
pub record Walked : Type 0 where
  pub active : List SandboxInfo
  pub expired : List (Bytes × Bytes)

unfoldable pub add_walked : Bool → Bytes → SandboxSession → Walked → Walked
unfolding info_of
add_walked true key session later = record later { active = info_of key session ∷ later.active }
add_walked false key session later = record later {
  expired = (key, session.run_id) ∷ later.expired;
}

unfoldable pub or_pruned : List (Bytes × Bytes) → Bool → Bool
or_pruned [] changed = changed
or_pruned (e ∷ expired) changed = true

module _ (o : Outside) where
  -- Whether a run that is not listed is confirmed to be alive.
  unfoldable pub is_alive : SandboxSession → Op Bool
  is_alive session = do
    answer ← get_connection_info o session.run_id session.scoped_token
    return (elim answer [ err e ↦ false | ok info ↦ info.sandboxable || not info.completed ])

  unfoldable pub is_active : List RunSummary → SandboxSession → Op Bool
  is_active runs session = if is_listed runs session.run_id then return true else is_alive session

  unfoldable pub walk_sessions : List RunSummary → Dict Bytes SandboxSession → Op Walked
  walk_sessions runs [] = return (record { active = []; expired = [] })
  walk_sessions runs ((key, session) ∷ rest) = do
    active ← is_active runs session
    later ← walk_sessions runs rest
    return (add_walked active key session later)

  unfoldable pub prune : SandboxStorage → List (Bytes × Bytes) → Op SandboxStorage
  prune storage [] = return storage
  prune storage ((key, run_id) ∷ expired) = do
    close_sandbox_tunnels o run_id
    prune (delete_key storage key) expired

  unfoldable pub save_if_changed : SandboxStorage → Bool → Op (Unit {0})
  save_if_changed storage changed =
      if changed
      then (do
        failed ← save_sessions o storage
        on_error failed
            (λ e.
              log (
                warned
                  (codes "Warning: failed to save sandbox storage: " ++ error e ++ codes "\n")))
            (return tt))
      else return tt

  -- What is done with the merged storage.
  unfoldable pub list_merged : List RunSummary → SandboxStorage × Bool → Op (List SandboxInfo)
  list_merged runs (storage, changed) = do
    walked ← walk_sessions runs storage.sandboxes
    pruned ← prune storage walked.expired
    save_if_changed pruned (or_pruned walked.expired changed)
    log (recorded (codes "sandbox.list"))
    return walked.active

  unfoldable pub list_loaded : Op (Result OpFailure (List SandboxInfo))
  list_loaded = do
    loaded ← load_sessions o
    on_result loaded (λ e. return (err (fails (wrap (codes "unable to load sandbox sessions") e))))
        (λ storage. do
          answer ← list_sandbox_runs o
          on_result answer
              (λ e. return (err (fails (wrap (codes "unable to list sandbox runs") e))))
              (λ runs.
                on_result (merge_runs (storage, false) runs) pass_panic
                  (λ merged. do active ← list_merged runs merged; return (ok active))))

  unfoldable pub list_sandboxes : Op (Result OpFailure (List SandboxInfo))
  list_sandboxes = do
    lock_err ← lock_sandbox_storage_with_info o
    on_error lock_err (λ e. return (err (fails (wrap (codes "unable to lock sandbox storage") e))))
        (do result ← list_loaded; log unlocked; return result)
