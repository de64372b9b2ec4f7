-- ===== src/SandboxOps/World.antt =====
-- What an operation on sandboxes does in order, and what it meets: the API, the stored sessions with their
-- lock, SSH, the tunnels and the clock.
use rwx.Prelude.{ℕ, Bool, Option, none, some, List, ◌∷◌, Bytes, if◌then◌else◌}
use rwx.Prelude.Result.{Result}
use rwx.Prelude.Traced.{Traced, ◌>>◌, return, log}
use rwx.Errors.{GoError}
use rwx.Sandbox.Key.{Panic, get_current_branch}
use rwx.Sandbox.Storage.{SandboxStorage}

-- `SandboxConnectionInfo` as far as the operations read it.
pub record ConnectionInfo : Type 0 where
  pub sandboxable : Bool
  pub completed : Bool
  pub backoff_ms : Option ℕ
  pub failure_reason : Bytes

-- `RunSummary`, with the branch and config file of its CLI state, where it has one that decodes.
pub record RunSummary : Type 0 where
  pub id : Bytes
  pub run_url : Bytes
  pub cli_state : Option (Bytes × Bytes)

-- What is done: the lock is taken, given up or released; sessions are saved, or the save is refused; the API is asked or told;
-- a command runs over SSH; tunnels are closed; time passes; a warning or an error is printed; an event is
-- recorded; the process panics.
pub data OpEvent : Type 0 where
  locked lock_failed unlocked panicked : OpEvent
  saved save_refused : SandboxStorage → OpEvent
  asked cancelled : Bytes → Bytes → OpEvent
  listed connected ended_by_ssh : OpEvent
  tunnels_closed token_created initiated : Bytes → OpEvent
  slept : ℕ → OpEvent
  warned : Bytes → OpEvent
  recorded : Bytes → OpEvent

abbrev pub Past : Type 0
Past = List OpEvent

-- An operation.
abbrev pub Op {ℓ} : Type ℓ → Type ℓ
Op V = Traced OpEvent V

-- The code outside, as it answers after what was done. `clock` is the time in milliseconds,
-- `no_directory` the error of os.Getwd.
pub record Outside : Type 0 where
  pub try_lock : Past → Option GoError
  pub lock : Past → Option GoError
  pub load : Past → Result GoError SandboxStorage
  pub save : Past → SandboxStorage → Option GoError
  pub connection_info : Past → Bytes → Bytes → Result GoError ConnectionInfo
  pub connect : Past → Option GoError
  pub cancel : Past → Bytes → Option GoError
  pub close_tunnels : Past → Bytes → Option GoError
  pub runs : Past → Result GoError (List RunSummary)
  pub create_token : Past → Bytes → Result GoError Bytes
  pub initiate : Past → Bytes → Result GoError (Bytes × Bytes)
  pub is_ancestor : Bytes → Bytes → Bool
  pub branch_name : Bytes
  pub short_head : Bytes
  pub config_hash : Bytes → Bytes
  pub clock : Past → ℕ
  pub no_directory : Past → Option GoError

-- How an operation ends without a result: with an error, with a panic, or not yet, for it still waits.
pub data OpFailure : Type 0 where
  fails : GoError → OpFailure
  panics : Panic → OpFailure
  still_waiting : OpFailure

-- A panic ends the process, which then holds no lock; `fail` is the operation's own form of a failure.
unfoldable pub crash {ℓ} : {V : Type ℓ} → (OpFailure → V) → Panic → Op V
crash fail p = do log panicked; return (fail (panics p))

-- The answers to the attempt and to the wait, which is only for a contended lock.
unfoldable pub attempt_lock : Option GoError → Option GoError → Op (Option GoError)
attempt_lock none waited h = (none, locked ∷ h)
attempt_lock (some contended) none h = (none, locked ∷ h)
attempt_lock (some contended) (some e) h = (some e, lock_failed ∷ h)

-- What a save leaves: the sessions stored, or the file as it was.
unfoldable pub after_save : Option GoError → SandboxStorage → Op (Option GoError)
after_save none s h = (none, saved s ∷ h)
after_save (some e) s h = (some e, save_refused s ∷ h)

module _ (o : Outside) where
  unfoldable pub current_branch : Bytes
  current_branch = get_current_branch o.branch_name o.short_head

  -- The lock is tried for, and then waited for; the spinner is left out.
  unfoldable pub lock_sandbox_storage_with_info : Op (Option GoError)
  unfolding attempt_lock
  lock_sandbox_storage_with_info h = attempt_lock (o.try_lock h) (o.lock h) h

  unfoldable pub load_sessions : Op (Result GoError SandboxStorage)
  load_sessions h = (o.load h, h)

  unfoldable pub save_sessions : SandboxStorage → Op (Option GoError)
  save_sessions s h = after_save (o.save h s) s h

  unfoldable pub get_connection_info : Bytes → Bytes → Op (Result GoError ConnectionInfo)
  get_connection_info run_id token h = (o.connection_info h run_id token, asked run_id token ∷ h)

  unfoldable pub connect_ssh : Op (Option GoError)
  connect_ssh h = (o.connect h, connected ∷ h)

  unfoldable pub cancel_run : Bytes → Bytes → Op (Option GoError)
  cancel_run run_id token h = (o.cancel h run_id, cancelled run_id token ∷ h)

  unfoldable pub close_all_tunnels : Bytes → Op (Option GoError)
  close_all_tunnels run_id h = (o.close_tunnels h run_id, tunnels_closed run_id ∷ h)

  unfoldable pub now : Op ℕ
  now h = (o.clock h, h)

  -- os.Getwd, whose result only the caller's prompts use
  unfoldable pub getwd : Op (Option GoError)
  getwd h = (o.no_directory h, h)

  unfoldable pub list_sandbox_runs : Op (Result GoError (List RunSummary))
  list_sandbox_runs h = (o.runs h, listed ∷ h)

  unfoldable pub create_sandbox_token : Bytes → Op (Result GoError Bytes)
  create_sandbox_token run_id h = (o.create_token h run_id, token_created run_id ∷ h)

  unfoldable pub initiate_run : Bytes → Op (Result GoError (Bytes × Bytes))
  initiate_run config_file h = (o.initiate h config_file, initiated config_file ∷ h)

-- `UnlockSandboxStorage`, which does nothing without a lock.
unfoldable pub unlock : Bool → Op (Unit {0})
unlock has_lock = if has_lock then log unlocked else return tt
