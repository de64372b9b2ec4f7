-- ===== src/Artifacts/DownloadOne.antt =====
-- `DownloadArtifact` (internal/cli/service_artifacts.go). What is printed is left out.
use rwx.Prelude.{
  ◌&&◌, Option, none, some, List, [], ◌++◌, ◌==◌, nat_eq, bytes_eq, Bytes, codes, if◌then◌else◌,
}
use rwx.Prelude.FilePath.{join}
use rwx.Prelude.Result.{Result, ok, err}
use rwx.Prelude.Traced.{◌>>=◌, ◌>>◌, return, on_error, on_result}
use rwx.Errors.{GoError, Target, not_found, wrap, is}
use rwx.Artifacts.Names.{download_filename, artifact_stem}
use rwx.Artifacts.Extract.{Disk, Extraction, extract_tar, prepare_directory_output}
use rwx.Artifacts.Ready.{DownloadRequest, Remote, artifact_not_ready, await_artifacts}
use rwx.Artifacts.Download.{
  DownloadConfig, validate, not_found_error, DownloadOutcome, failed_early, should_extract,
  save_file, extract_single_file_tar, open_if_asked, with_telemetry,
}

module _ (d : Disk) (r : Remote) (cfg : DownloadConfig) where
  -- Where one artifact's archive is extracted.
  unfoldable pub extract_dir : DownloadRequest → Bytes
  extract_dir req =
      if cfg.output_explicitly_set then cfg.output else join cfg.output (artifact_stem req.filename)

  unfoldable pub extract_one : DownloadRequest → Bytes → Extraction (Result GoError (List Bytes))
  extract_one req contents =
      if req.kind == codes "file" && cfg.output_explicitly_set
      then extract_single_file_tar d (r.read_tar contents) cfg.output req.key
      else (do
        unprepared ← prepare_directory_output d (extract_dir req)
        on_error unprepared
            (λ e.
              return
                (err (wrap (codes "unable to create extraction directory " ++ extract_dir req) e)))
            (do
              extracted ← extract_tar d (extract_dir req) (r.read_tar contents)
              on_result extracted
                  (λ e. return (err (wrap (codes "unable to extract tar archive") e)))
                  (λ files. return (ok files))))

  unfoldable pub save_one : DownloadRequest → Bytes → Extraction (Result GoError (List Bytes))
  save_one req contents =
      if should_extract cfg req
      then extract_one req contents
      else save_file d
          (if cfg.output_explicitly_set
            then cfg.output
            else join cfg.output (download_filename req.filename))
          contents 420

  unfoldable pub download_one : DownloadRequest → Extraction (Result GoError (List Bytes))
  download_one req =
      on_result (r.download req) (λ e. return (err (wrap (codes "unable to download artifact") e)))
        (λ contents. do
          written ← save_one req contents
          on_result written (λ e. return (err e))
              (λ files. do open_if_asked cfg files; return (ok files)))

  -- The operation without its telemetry, which counts one artifact on every path.
  unfoldable pub download_artifact : Bytes → Extraction (Option DownloadOutcome)
  download_artifact artifact_key =
      on_error (validate cfg (some artifact_key))
        (λ e. return (some (failed_early 1 (wrap (codes "validation failed") e))))
        (do
          answer ← await_artifacts r (λ h.
              if cfg.task_key == []
              then r.one_by_task_id h cfg.task_id artifact_key
              else r.one_by_task_key h cfg.run_id cfg.task_key artifact_key)
          on_error answer
              (λ answered.
                on_result answered
                  (λ e. return (
                    some (
                      failed_early 1 (
                        if is e (Target.sentinel not_found)
                        then not_found_error (codes "Artifact " ++ artifact_key) cfg
                        else wrap (codes "unable to fetch artifact download request") e))))
                  (λ found.
                    if artifact_not_ready found.0
                    then return (
                        some (
                          failed_early 1 (not_found_error (codes "Artifact " ++ artifact_key) cfg)))
                    else (do
                      outcome ← download_one found.1
                      return (
                          some (record {
                            count = 1;
                            total_bytes = found.1.size_in_bytes;
                            outcome = outcome;
                          })))))
              (return none))

  unfoldable pub download_one_artifact : Bytes → Extraction (Option (Result GoError (List Bytes)))
  download_one_artifact artifact_key = with_telemetry (download_artifact artifact_key)
