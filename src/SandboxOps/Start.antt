-- ===== src/SandboxOps/Start.antt =====
-- internal/cli/service_sandbox.go: `StartSandbox`.
use rwx.Prelude.{
  ℕ, Bool, true, false, ◌&&◌, not, Option, none, some, [], ◌++◌, Bytes, codes, if◌then◌else◌,
}
use rwx.Prelude.Result.{Result, ok, err}
use rwx.Prelude.Traced.{◌>>=◌, ◌>>◌, return, log, on_error, on_result, on_empty}
use rwx.Errors.{new_error, GoError, error, wrap}
use rwx.Sandbox.Storage.{SandboxSession, SandboxStorage, find_by_run_id, set_session}
use rwx.SandboxOps.World.{
  OpEvent, unlocked, warned, recorded, Op, Outside, OpFailure, fails, still_waiting, crash,
  current_branch, unlock, lock_sandbox_storage_with_info, load_sessions, get_connection_info,
  create_sandbox_token, initiate_run, now, getwd,
}
use rwx.SandboxOps.Waiting.{wait_for_sandbox_ready}
use rwx.SandboxOps.Check.{save_sandbox_storage_with_telemetry}

pub record StartSandboxConfig : Type 0 where
  pub config_file : Bytes
  pub run_id : Bytes
  pub wait : Bool
  -- whether the caller passes the lock that it holds
  pub storage_lock : Bool

pub record StartSandboxResult : Type 0 where
  pub run_id : Bytes
  pub run_url : Bytes
  pub config_file : Bytes

-- A result, with the failure of the wait if there is one, or only a failure.
pub data Started : Type 0 where
  started : StartSandboxResult → Option OpFailure → Started
  not_started : OpFailure → Started

-- `if err != nil`
unfoldable pub outcome : Started → Result OpFailure StartSandboxResult
outcome (started r none) = ok r
outcome (started r (some e)) = err e
outcome (not_started e) = err e

abbrev pub warning : Bytes → GoError → OpEvent
warning text e = warned (codes "Warning: " ++ text ++ codes ": " ++ error e ++ codes "\n")

unfoldable pub new_session : Bytes → Bytes → Bytes → Bytes → Bytes → Option ℕ → SandboxSession
new_session run_id config_file scoped_token run_url config_hash created_at = record {
  run_id = run_id;
  config_file = config_file;
  scoped_token = scoped_token;
  run_url = run_url;
  config_hash = config_hash;
  created_at = created_at;
  last_exec_at = none;
  exec_count = 0;
  reset_nag_shown = false;
}

module _ (o : Outside) where
  -- Creating a token only warns when it fails.
  unfoldable pub token_or_empty : Bytes → Op Bytes
  token_or_empty run_id = do
    token ← create_sandbox_token o run_id
    on_result token (λ e. do log (warning (codes "Unable to create scoped token") e); return [])
        return

  -- The session is stored, with only a warning where that fails, and the rest is told whether the sessions
  -- could be loaded.
  unfoldable pub store_session : Bytes → SandboxSession → Bytes → (Bool → Op Started) → Op Started
  store_session config_file session reason rest = do
    loaded ← load_sessions o
    on_result loaded (λ e. do log (warning (codes "Unable to load sandbox sessions") e); rest false)
        (λ storage.
          on_result (set_session storage (current_branch o) config_file session) (crash not_started)
            (λ changed. do
              failed ← save_sandbox_storage_with_telemetry o changed reason false
              on_error failed
                  (λ e. do log (warning (codes "Unable to save sandbox session") e); rest true)
                  (rest true)))

  -- The session of a reattached run is stored.
  unfoldable pub store_reattached : Bytes → Bytes → Op Started → Op Started
  store_reattached run_id config_file rest = do
    token ← token_or_empty run_id
    lock_err ← lock_sandbox_storage_with_info o
    on_error lock_err (λ e. do log (warning (codes "Unable to lock sandbox storage") e); rest)
        (store_session config_file
          (new_session run_id config_file token [] (o.config_hash config_file) none)
          (codes "reattach") (λ loaded. do log unlocked; rest))

  unfoldable pub known_token : Result GoError SandboxStorage → Bytes → Bytes
  known_token (err e) run_id = []
  known_token (ok storage) run_id = elim (find_by_run_id storage run_id) [
    | none ↦ []
    | some (key, session) ↦ session.scoped_token
  ]

  unfoldable pub is_unknown : Result GoError SandboxStorage → Bytes → Bool
  is_unknown (err e) run_id = false
  is_unknown (ok storage) run_id = elim (find_by_run_id storage run_id) [
    | none ↦ true
    | some _ ↦ false
  ]

  unfoldable pub wait_if_asked : ℕ → Bool → Bytes → Bytes → Op (Option OpFailure)
  wait_if_asked fuel wait run_id token =
      if wait
      then (do
        ready ← wait_for_sandbox_ready o run_id token fuel
        on_error ready (λ r. on_result r (λ e. return (some (fails e))) (λ info. return none))
            (return (some still_waiting)))
      else return none

  unfoldable pub attached : StartSandboxConfig → Op Started
  attached cfg = do
    log (recorded (codes "sandbox.start"))
    return
        (started (record { run_id = cfg.run_id; run_url = []; config_file = cfg.config_file }) none)

  -- With --id: the run is attached to if it is still active.
  unfoldable pub reattach : ℕ → StartSandboxConfig → Op Started
  reattach fuel cfg = do
    unlock cfg.storage_lock
    loaded ← load_sessions o
    answer ← get_connection_info o cfg.run_id (known_token loaded cfg.run_id)
    on_result answer
        (λ e.
          return
            (not_started (fails (wrap (codes "unable to get sandbox info for " ++ cfg.run_id) e))))
        (λ info.
          if info.completed && not info.sandboxable
          then return (
              not_started (
                fails (
                  new_error (
                    codes "Run '"
                    ++ cfg.run_id
                    ++ codes
                        "' is no longer active (timed out or cancelled).\nRun 'rwx sandbox start "
                    ++ cfg.config_file
                    ++ codes "' to create a new sandbox."))))
          else (do
            waited ←
                wait_if_asked fuel (cfg.wait && not info.sandboxable) cfg.run_id
                  (known_token loaded cfg.run_id)
            on_error waited (λ e. return (not_started e))
                (if is_unknown loaded cfg.run_id
                  then store_reattached cfg.run_id cfg.config_file (attached cfg)
                  else attached cfg)))

  -- The new run's token is stored with it, under the lock taken again.
  unfoldable pub store_token : Bytes → SandboxSession → Op Started → Op Started
  store_token config_file session rest = do
    lock_err ← lock_sandbox_storage_with_info o
    on_error lock_err
        (λ e. do
          log (warning (codes "Unable to lock sandbox storage") e)
          store_session config_file session (codes "scoped_token")
              (λ loaded. do unlock false; rest))
        (store_session config_file session (codes "scoped_token") (λ loaded. do unlock true; rest))

  -- After both: the event, and the wait if there is to be one.
  unfoldable pub finish_start : ℕ → StartSandboxConfig → Bytes × Bytes → Bytes → Op Started
  finish_start fuel cfg run token = do
    log (recorded (codes "sandbox.start"))
    waited ← wait_if_asked fuel cfg.wait run.0 token
    return
        (started (record { run_id = run.0; run_url = run.1; config_file = cfg.config_file }) waited)

  -- After the run has begun: the session is stored, and again with its token.
  unfoldable pub store_started : ℕ → StartSandboxConfig → Bool → Bytes × Bytes → Op Started
  store_started fuel cfg has_lock run = do
    time ← now o
    let session : Bytes → SandboxSession = λ token.
        new_session run.0 cfg.config_file token run.1 (o.config_hash cfg.config_file) (some time)
    store_session cfg.config_file (session []) (codes "start_session") (λ loaded. do
      unlock has_lock
      token ← token_or_empty run.0
      if loaded
          then store_token cfg.config_file (session token) (finish_start fuel cfg run token)
          else finish_start fuel cfg run token)

  -- The caller's lock is used if there is one; a lock that could not be had only warns.
  unfoldable pub begin_session : ℕ → StartSandboxConfig → Bool → Bytes × Bytes → Op Started
  begin_session fuel cfg storage_lock run =
      if storage_lock then store_started fuel cfg true run else (do
        lock_err ← lock_sandbox_storage_with_info o
        on_error lock_err
            (λ e. do
              log (warning (codes "Unable to lock sandbox storage") e)
              store_started fuel cfg false run)
            (store_started fuel cfg true run))

  unfoldable pub start_run : ℕ → StartSandboxConfig → Op Started
  start_run fuel cfg = do
    begun ← initiate_run o cfg.config_file
    on_result begun (λ e. do unlock cfg.storage_lock; return (not_started (fails e)))
        (λ run. begin_session fuel cfg cfg.storage_lock run)

  unfoldable pub start_there : ℕ → StartSandboxConfig → Op Started
  start_there fuel cfg = on_empty cfg.run_id (start_run fuel cfg) (λ c rest. reattach fuel cfg)

  -- `fuel` bounds the rounds of the wait. Without a working directory the caller's lock is not released.
  unfoldable pub start_sandbox : ℕ → StartSandboxConfig → Op Started
  start_sandbox fuel cfg = do
    lost ← getwd o
    on_error lost
        (λ e. return (not_started (fails (wrap (codes "unable to get current directory") e))))
        (start_there fuel cfg)
