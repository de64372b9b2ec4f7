-- ===== src/SandboxSync/Session.antt =====
-- What a synchronisation does in order, and what it meets: the SSH client, git and temporary files.
use rwx.Prelude.{ℕ, Bool, Option, List, ◌∷◌, Bytes, codes}
use rwx.Prelude.Result.{Result}
use rwx.Prelude.Traced.{Traced}
use rwx.Errors.{GoError}
use rwx.SandboxSync.Patches.{DirtyPatches}

pub record PushRefOptions : Type 0 where
  pub remote : Bytes
  pub refspec : Bytes
  pub env : List Bytes

-- The properties of the event `sandbox.sync_push`, without the duration.
pub record SyncPush : Type 0 where
  pub patch_bytes : ℕ
  pub lfs_skipped_count : ℕ
  pub failure_reason : Option Bytes

-- What is done: a command over SSH, without its output, with it or with a standard input; a push; a
-- temporary file created, a file written or removed; a patch applied to the working directory, or what
-- can be applied of it; a warning printed; the telemetry event recorded.
pub data SyncEvent : Type 0 where
  execute_command execute_with_output : Bytes → SyncEvent
  execute_with_stdin : Bytes → Bytes → SyncEvent
  push_ref : PushRefOptions → SyncEvent
  create_temp remove : Bytes → SyncEvent
  apply_patch apply_patch_reject : Bytes → SyncEvent
  write_path : Bytes → Bytes → SyncEvent
  warn : List Bytes → SyncEvent
  sync_push : SyncPush → SyncEvent

-- The last event first.
abbrev pub History : Type 0
History = List SyncEvent

-- The code that is not part of the program, as it answers after a history: the SSH client with the exit
-- code and output of a command, git, the file system. `create_temp` gives a name, or its error;
-- `rwx_directory` is the `.rwx` directory, if there is one; `reject_files` are the .rej files below the
-- working directory.
pub record World : Type 0 where
  pub ssh : History → SyncEvent → Result GoError (ℕ × Bytes)
  pub push : History → PushRefOptions → Option GoError
  pub head_commit : Result GoError Bytes
  pub branch : Bytes
  pub generate_dirty_patches : History → Result GoError DirtyPatches
  pub reject_files : List Bytes
  pub create_temp : History → Result GoError Bytes
  pub close_temp : History → Option GoError
  pub write_file : History → Option GoError
  pub apply_patch : History → Bytes → Option GoError
  pub apply_patch_reject : History → Bytes → Bytes × Option GoError
  pub exists : History → Bytes → Bool
  pub rwx_directory : Option Bytes
  pub can_make_directory : Bool
  pub split_host_port : Bytes → Result GoError (Bytes × Bytes)
  pub quote_command : List Bytes → Bytes
  pub pid : ℕ
  pub nanos : ℕ

-- Code that has a history behind it and adds to it.
abbrev pub Session {ℓ} : Type ℓ → Type ℓ
Session V = Traced SyncEvent V

-- `_, _ = s.SSHClient.ExecuteCommand(command)`
unfoldable pub send : Bytes → Session (Unit {0})
send command h = (tt, execute_command command ∷ h)

-- An SSH command with what it answers.
unfoldable pub run : World → SyncEvent → Session (Result GoError (ℕ × Bytes))
run w e h = (w.ssh h e, e ∷ h)

abbrev pub sync_start : Bytes
sync_start = codes "__rwx_sandbox_sync_start__"

abbrev pub sync_end : Bytes
sync_end = codes "__rwx_sandbox_sync_end__"
