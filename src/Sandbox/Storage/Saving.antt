-- ===== src/Sandbox/Storage/Saving.antt =====
-- internal/cli/sandbox_storage.go: SaveWithMetrics, as what it does to the files of the storage's
-- directory, in order. Which step the operating system refuses and how JSON encodes are arguments;
-- durations are not modelled.
use rwx.Prelude.{ℕ, Bool, true, false, Option, none, some, List, [], ◌∷◌, ◌++◌, Bytes}
use rwx.Prelude.Dict.{Dict}
use rwx.Prelude.Result.{Result, ok, err}
use rwx.Prelude.Traced.{Traced, ◌>>=◌, ◌>>◌, log, return}
use rwx.Sandbox.Storage.{SandboxSession, SandboxStorage}
use rwx.Sandbox.Storage.Persist.{sandbox_storage_version, StoredFile, missing}

-- The steps of a save, each of which may be refused. `remove` is the deferred `os.Remove`.
pub data SaveStep : Type 0 where
  storage_path storage_dir create_temp encode sync close rename remove : SaveStep

-- The storage file, and the one that `os.CreateTemp` makes beside it under a new name.
pub data FileName : Type 0 where
  stored temporary : FileName

pub data SaveEvent : Type 0 where
  found_path made_dir : SaveEvent
  created synced closed removed : FileName → SaveEvent
  wrote : FileName → Bytes → SaveEvent
  renamed : FileName → FileName → SaveEvent

-- The contents of the two files, `none` where there is no such file.
pub record Files : Type 0 where
  pub stored_file : Option Bytes
  pub temporary_file : Option Bytes

unfoldable pub contents : Files → FileName → Option Bytes
contents f stored = f.stored_file
contents f temporary = f.temporary_file

unfoldable pub with_contents : Files → FileName → Option Bytes → Files
with_contents f stored c = record f { stored_file = c }
with_contents f temporary c = record f { temporary_file = c }

unfoldable pub appended : Option Bytes → Bytes → Option Bytes
appended none bytes = none
appended (some old) bytes = some (old ++ bytes)

unfoldable pub change_files : SaveEvent → Files → Files
unfolding contents with_contents appended
change_files found_path f = f
change_files made_dir f = f
change_files (created name) f = with_contents f name (some [])
change_files (synced name) f = f
change_files (closed name) f = f
change_files (removed name) f = with_contents f name none
change_files (wrote name bytes) f = with_contents f name (appended (contents f name) bytes)
change_files (renamed from to) f = with_contents (with_contents f to (contents f from)) from none

-- The files after these events, from a storage file and no temporary one.
unfoldable pub files_after : Option Bytes → List SaveEvent → Files
unfolding change_files
files_after before [] = record { stored_file = before; temporary_file = none }
files_after before (e ∷ h) = change_files e (files_after before h)

-- What a load finds in a file that can be opened.
unfoldable pub found_file : (Bytes → StoredFile) → Option Bytes → StoredFile
found_file decode none = missing
found_file decode (some bytes) = decode bytes

pub record Saved : Type 0 where
  pub storage : SandboxStorage
  pub outcome : Result SaveStep (Unit {0})

abbrev pub SaveOutcome : Type 0
SaveOutcome = Result SaveStep (Unit {0})

-- The flags are reset after the rename.
unfoldable pub finished : SandboxStorage → SaveOutcome → Saved
finished s (ok done) = record {
  storage = record s { changed = false; migrated = false };
  outcome = ok done;
}
finished s (err step) = record { storage = s; outcome = err step }

module _ {V : Type 0} where
  -- A step that is refused leaves `traces`; one that is not, `done`.
  unfoldable pub step_result :
      Bool
      → List SaveEvent
      → SaveEvent
      → Traced SaveEvent V
      → Traced SaveEvent V
      → Traced SaveEvent V
  step_result true traces done failed rest h = failed (traces ++ h)
  step_result false traces done failed rest h = rest (done ∷ h)

-- `partial` is what a write that fails has written.
module _ (refuses : SaveStep → Bool) (partial : Bytes)
    (encode_json : ℕ → Dict Bytes SandboxSession → Bytes) where
  module _ {V : Type 0} where
    -- `if err := step(); err != nil { ... }` in front of the rest
    unfoldable pub do_step :
        SaveStep
        → SaveEvent
        → (SaveStep → Traced SaveEvent V)
        → Traced SaveEvent V
        → Traced SaveEvent V
    do_step step done failed rest = step_result (refuses step) [] done (failed step) rest

    unfoldable pub encode_step :
        FileName → Bytes → (SaveStep → Traced SaveEvent V) → Traced SaveEvent V → Traced SaveEvent V
    encode_step name bytes failed rest =
        step_result (refuses encode) (wrote name partial ∷ []) (wrote name bytes) (failed encode)
          rest

  -- From `encoder.Encode` on.
  unfoldable pub write_temp : SandboxStorage → Traced SaveEvent SaveOutcome
  write_temp s =
      encode_step temporary (encode_json s.version s.sandboxes)
        (λ step. log (closed temporary) >> return (err step))
        (do_step sync (synced temporary) (λ step. log (closed temporary) >> return (err step))
          (do_step close (closed temporary) (λ step. return (err step))
            (do_step rename (renamed temporary stored) (λ step. return (err step))
              (return (ok tt)))))

  unfoldable pub remove_temp : Traced SaveEvent (Unit {0})
  remove_temp = do_step remove (removed temporary) (λ step. return tt) (return tt)

  unfoldable pub save : SandboxStorage → Traced SaveEvent Saved
  save s =
      do_step storage_path found_path (λ step. return (finished s (err step)))
        (do_step storage_dir made_dir (λ step. return (finished s (err step)))
          (let stamped : SandboxStorage = record s { version = sandbox_storage_version } in
            do_step create_temp (created temporary) (λ step. return (finished stamped (err step)))
              (do outcome ← write_temp stamped; remove_temp; return (finished stamped outcome))))
