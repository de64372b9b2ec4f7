-- ===== src/Artifacts/DownloadAll.antt =====
-- `DownloadAllArtifacts` (internal/cli/service_artifacts.go). What is printed is left out.
use rwx.Prelude.{
  Option, none, some, List, [], ◌∷◌, ◌++◌, ◌==◌, nat_eq, bytes_eq, Bytes, codes, length, map,
  if◌then◌else◌,
}
use rwx.Prelude.FilePath.{join}
use rwx.Prelude.Result.{Result, ok, err}
use rwx.Prelude.Traced.{◌>>=◌, ◌>>◌, return, on_error, on_result, on_empty}
use rwx.Errors.{GoError, Target, not_found, wrap, is}
use rwx.Artifacts.Names.{download_filename, download_all_artifacts_dir_name}
use rwx.Artifacts.Extract.{
  Disk, Extraction, extract_tar, prepare_directory_output, artifact_output_dirs,
}
use rwx.Artifacts.Ready.{DownloadRequest, Remote, artifact_not_ready, await_artifacts}
use rwx.Artifacts.Download.{
  DownloadConfig, validate, not_found_error, DownloadOutcome, failed_early, total, should_extract,
  save_file, open_if_asked, with_telemetry,
}

module _ (r : Remote) where
  -- The downloads, all of which are over before the first error is looked for.
  unfoldable pub fetch_all : List DownloadRequest → Result GoError (List Bytes)
  fetch_all [] = ok []
  fetch_all (req ∷ requests) = elim (r.download req) [
    | err e ↦ err (wrap (codes "unable to download artifact " ++ req.key) e)
    | ok contents ↦ elim (fetch_all requests) [ err e ↦ err e | ok later ↦ ok (contents ∷ later) ]
  ]

module _ (d : Disk) (r : Remote) (cfg : DownloadConfig) where
  unfoldable pub output_one :
      DownloadRequest → Bytes → Bytes → Extraction (Result GoError (List Bytes))
  output_one req contents artifact_dir =
      if should_extract cfg req
      then (do
        extracted ← extract_tar d artifact_dir (r.read_tar contents)
        on_result extracted
            (λ e.
              return
                (err (wrap (codes "unable to extract tar archive for artifact " ++ req.key) e)))
            (λ files. return (ok files)))
      else save_file d (join artifact_dir (download_filename req.filename)) contents 420

  unfoldable pub output_all :
      List DownloadRequest → List Bytes → List Bytes → Extraction (Result GoError (List Bytes))
  output_all (req ∷ requests) (contents ∷ later) (dir ∷ dirs) = do
    written ← output_one req contents dir
    on_result written (λ e. return (err e))
        (λ files. do
          more ← output_all requests later dirs
          on_result more (λ e. return (err e)) (λ rest. return (ok (files ++ rest))))
  output_all _ _ _ = return (ok [])

  unfoldable pub collection_dir : Bytes
  collection_dir =
      if cfg.output_explicitly_set
      then cfg.output
      else join cfg.output (download_all_artifacts_dir_name cfg.task_id cfg.run_id cfg.task_key)

  -- Directories for all artifacts, all downloads, and only then the files; `none` as for the directories.
  unfoldable pub download_found :
      List DownloadRequest → Extraction (Option (Result GoError (List Bytes)))
  download_found requests = do
    unprepared ← prepare_directory_output d collection_dir
    on_error unprepared
        (λ e.
          return
            (some (err (wrap (codes "unable to create output directory " ++ collection_dir) e))))
        (do
          made ← artifact_output_dirs d collection_dir (map (λ req. req.key) requests)
          on_error made
              (λ artifact_dirs.
                on_result artifact_dirs (λ e. return (some (err e)))
                  (λ dirs.
                    on_result (fetch_all r requests) (λ e. return (some (err e)))
                      (λ contents. do
                        written ← output_all requests contents dirs
                        on_result written (λ e. return (some (err e)))
                            (λ files. do open_if_asked cfg files; return (some (ok files))))))
              (return none))

  -- The operation without its telemetry; `none` if a loop ran out of rounds.
  unfoldable pub download_all : Extraction (Option DownloadOutcome)
  download_all =
      on_error (validate cfg none)
        (λ e. return (some (failed_early 0 (wrap (codes "validation failed") e))))
        (do
          answer ← await_artifacts r (λ h.
              if cfg.task_key == []
              then r.all_by_task_id h cfg.task_id
              else r.all_by_task_key h cfg.run_id cfg.task_key)
          on_error answer
              (λ answered.
                on_result answered
                  (λ e. return (
                    some (
                      failed_early 0 (
                        if is e (Target.sentinel not_found)
                        then not_found_error (codes "Artifacts") cfg
                        else wrap (codes "unable to fetch artifact download requests") e))))
                  (λ found.
                    if artifact_not_ready found.0
                    then return (some (failed_early 0 (not_found_error (codes "Artifacts") cfg)))
                    else on_empty found.1
                        (return (some (record { count = 0; total_bytes = 0; outcome = ok [] })))
                        (λ req requests. do
                          done ← download_found (req ∷ requests)
                          on_error done
                              (λ outcome. return (
                                some (record {
                                  count = length (req ∷ requests);
                                  total_bytes = total (req ∷ requests);
                                  outcome = outcome;
                                })))
                              (return none))))
              (return none))

  unfoldable pub download_all_artifacts : Extraction (Option (Result GoError (List Bytes)))
  download_all_artifacts = with_telemetry download_all
