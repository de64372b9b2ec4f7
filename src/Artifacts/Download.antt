-- ===== src/Artifacts/Download.antt =====
-- What `DownloadArtifact` and `DownloadAllArtifacts` share, and `extractSingleFileTar`
-- (internal/cli/service_artifacts.go).
use rwx.Prelude.{
  ℕ, ◌+◌, Bool, false, ◌&&◌, ◌||◌, not, Option, none, some, List, [], ◌∷◌, ◌++◌, ◌==◌, nat_eq,
  bytes_eq, Bytes, codes, if◌then◌else◌,
}
use rwx.Prelude.Decimal.{decimal}
use rwx.Prelude.Result.{Result, ok, err}
use rwx.Prelude.Traced.{◌>>=◌, ◌>>◌, return, log, on_error, on_result}
use rwx.Errors.{GoError, not_found, new_error, wrap, mark}
use rwx.Artifacts.Extract.{
  write_whole, opened, recorded, Disk, EntryKind, directory, regular, other, TarEntry, Extraction,
  ask_disk, prepare_file_output,
}
use rwx.Artifacts.Ready.{DownloadRequest}

-- `DownloadAllArtifactsConfig`, and `DownloadArtifactConfig` with the artifact's key.
pub record DownloadConfig : Type 0 where
  pub task_id : Bytes
  pub run_id : Bytes
  pub task_key : Bytes
  pub output : Bytes
  pub output_explicitly_set : Bool
  pub auto_extract : Bool
  pub open_files : Bool

-- `c.ArtifactKey == ""`, where one artifact is asked for.
unfoldable pub lacks_key : Option Bytes → Bool
lacks_key none = false
lacks_key (some key) = key == []

-- The two `Validate`; `none` is the key where all artifacts are asked for.
unfoldable pub validate : DownloadConfig → Option Bytes → Option GoError
validate cfg artifact_key =
    if not (cfg.task_key == []) && cfg.run_id == []
    then some (new_error (codes "run ID must be provided when using task key"))
    else if cfg.task_key == [] && cfg.task_id == []
    then some (new_error (codes "task ID must be provided"))
    else if lacks_key artifact_key
    then some (new_error (codes "artifact key must be provided"))
    else if cfg.output == []
    then some (new_error (codes "output must be provided"))
    else none

-- `notFoundErr` for what is named so.
unfoldable pub not_found_error : Bytes → DownloadConfig → GoError
not_found_error what cfg =
    mark
      (new_error (
        if cfg.task_key == []
        then what ++ codes " for task " ++ cfg.task_id ++ codes " not found"
        else what ++ codes " for task key '" ++ cfg.task_key ++ codes "' not found"))
      not_found

-- The telemetry's count and bytes, and the files or the error.
pub record DownloadOutcome : Type 0 where
  pub count : ℕ
  pub total_bytes : ℕ
  pub outcome : Result GoError (List Bytes)

abbrev pub failed_early : ℕ → GoError → DownloadOutcome
failed_early count e = record { count = count; total_bytes = 0; outcome = err e }

abbrev pub total : List DownloadRequest → ℕ
total [] = 0
total (req ∷ requests) = req.size_in_bytes + total requests

unfoldable pub should_extract : DownloadConfig → DownloadRequest → Bool
should_extract cfg req =
    req.kind == codes "file" || req.kind == codes "directory" && cfg.auto_extract

-- What a single file's archive holds: the mode and contents of its one file.
abbrev pub SingleFile : Type 0
SingleFile = ℕ × Bytes

unfoldable pub count_error : Bytes → ℕ → GoError
count_error artifact_key n = new_error (
    codes "expected file artifact "
    ++ artifact_key
    ++ codes " to contain exactly one file, found "
    ++ decimal n)

unfoldable pub add_file :
    Bytes → EntryKind → Option SingleFile → TarEntry → Result GoError (Option SingleFile)
add_file artifact_key regular none entry = ok (some (entry.mode, entry.contents))
add_file artifact_key regular (some file) entry = err (count_error artifact_key 2)
add_file artifact_key directory found entry = ok found
add_file artifact_key other found entry = ok found

unfoldable pub single_file :
    Bytes → Option SingleFile → List (Result GoError TarEntry) → Result GoError SingleFile
single_file artifact_key none [] = err (count_error artifact_key 0)
single_file artifact_key (some file) [] = ok file
single_file artifact_key found (err e ∷ archive) = err (wrap (codes "unable to read tar header") e)
single_file artifact_key found (ok entry ∷ archive) =
    elim (add_file artifact_key entry.kind found entry) [
      | err e ↦ err e
      | ok next ↦ single_file artifact_key next archive
    ]

unfoldable pub open_all : List Bytes → Extraction (Unit {0})
open_all [] = return tt
open_all (file ∷ files) = do log (opened file); open_all files

module _ (d : Disk) where
  -- A file written whole: its path.
  unfoldable pub save_file : Bytes → Bytes → ℕ → Extraction (Result GoError (List Bytes))
  save_file path contents mode = do
    unprepared ← prepare_file_output d path
    on_error unprepared (λ e. return (err e))
        (do
          failed ← ask_disk d (write_whole path contents mode)
          on_error failed
              (λ e. return (err (wrap (codes "unable to write artifact file to " ++ path) e)))
              (return (ok (path ∷ []))))

  unfoldable pub extract_single_file_tar :
      List (Result GoError TarEntry) → Bytes → Bytes → Extraction (Result GoError (List Bytes))
  extract_single_file_tar archive output_path artifact_key =
      on_result (single_file artifact_key none archive) (λ e. return (err e))
        (λ file. save_file output_path file.1 file.0)

unfoldable pub open_if_asked : DownloadConfig → List Bytes → Extraction (Unit {0})
open_if_asked cfg files = if cfg.open_files then open_all files else return tt

-- The event that both record at the end, whatever the outcome.
unfoldable pub with_telemetry :
    Extraction (Option DownloadOutcome) → Extraction (Option (Result GoError (List Bytes)))
with_telemetry m = do
  done ← m
  on_error done
      (λ downloaded. do
        log (recorded downloaded.count downloaded.total_bytes)
        return (some downloaded.outcome))
      (return none)
