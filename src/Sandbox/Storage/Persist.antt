-- ===== src/Sandbox/Storage/Persist.antt =====
-- internal/cli/sandbox_storage.go: loading and migrating the storage file. What the operating system
-- and the JSON decoder answer are arguments.
use rwx.Prelude.{
  ℕ, Bool, true, false, Option, none, some, [], ◌∷◌, Bytes, bytes_eq, ltb, if◌then◌else◌,
}
use rwx.Prelude.Dict.{Dict, put}
use rwx.Prelude.Result.{Result, ok, err, ◌>>=◌}
use rwx.Sandbox.Key.{Panic, migrate_session_key}
use rwx.Sandbox.Storage.{SandboxSession, SandboxStorage}

abbrev pub sandbox_storage_version : ℕ
sandbox_storage_version = 1

unfoldable pub migrate_entries :
    Dict Bytes SandboxSession → Dict Bytes SandboxSession → Result Panic (Dict Bytes SandboxSession)
migrate_entries migrated [] = ok migrated
migrate_entries migrated ((key, session) ∷ rest) = do
  new_key ← migrate_session_key key
  migrate_entries (put migrated new_key session) rest

unfoldable pub migrate_old_session_keys :
    Dict Bytes SandboxSession → Result Panic (Dict Bytes SandboxSession)
unfolding migrate_entries
migrate_old_session_keys = migrate_entries []

-- What `os.Open` and `Decode` find at the storage path: a decoded file has a version, 0 if absent,
-- and a map, `none` for `null` or if absent.
pub data StoredFile : Type 0 where
  missing unreadable malformed : StoredFile
  decoded : ℕ → Option (Dict Bytes SandboxSession) → StoredFile

pub data LoadError : Type 0 where
  no_storage_path unable_to_open unable_to_parse : LoadError
  panicked : Panic → LoadError

made : Option (Dict Bytes SandboxSession) → Dict Bytes SandboxSession
made none = []
made (some sandboxes) = sandboxes

migrated_storage : Result Panic (Dict Bytes SandboxSession) → Result LoadError SandboxStorage
migrated_storage (ok sandboxes) = ok (record {
  version = sandbox_storage_version;
  sandboxes = sandboxes;
  changed = true;
  migrated = true;
})
migrated_storage (err p) = err (panicked p)

open_storage : StoredFile → Result LoadError SandboxStorage
unfolding made migrated_storage migrate_old_session_keys
open_storage missing = ok (record {
  version = sandbox_storage_version;
  sandboxes = [];
  changed = false;
  migrated = false;
})
open_storage unreadable = err unable_to_open
open_storage malformed = err unable_to_parse
open_storage (decoded version sandboxes) =
    if ltb version sandbox_storage_version
    then migrated_storage (migrate_old_session_keys (made sandboxes))
    else ok (record {
      version = version;
      sandboxes = made sandboxes;
      changed = false;
      migrated = false;
    })

-- `has_path` tells whether `sandboxStoragePath` succeeds.
unfoldable pub load_sandbox_storage : Bool → StoredFile → Result LoadError SandboxStorage
unfolding open_storage
load_sandbox_storage has_path file = if has_path then open_storage file else err no_storage_path

unfoldable pub has_changes : SandboxStorage → Bool
has_changes s = s.changed

unfoldable pub has_migration : SandboxStorage → Bool
has_migration s = s.migrated
