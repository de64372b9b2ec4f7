-- ===== src/Artifacts/Extract.antt =====
-- What is written to the disk: `extractTar`, `artifactOutputDirs` and `prepareDirectoryOutput`
-- (internal/cli/service_artifacts.go and internal/cli/service_download_output.go).
use rwx.Prelude.{
  ℕ, Bool, ◌||◌, Option, none, some, List, [], ◌∷◌, ◌++◌, ◌==◌, bytes_eq, Bytes, codes, has_prefix,
  if◌then◌else◌,
}
use rwx.Prelude.FilePath.{clean, dir, join}
use rwx.Prelude.Result.{Result, ok, err}
use rwx.Prelude.Traced.{Traced, ◌>>=◌, return, on_error, on_result}
use rwx.Errors.{GoError, new_error, wrap}
use rwx.Artifacts.Names.{output_names}

-- What is asked of the disk: a directory with its parents, a file, its contents and its mode, or a
-- whole file. What else is done: the server is asked, a sleep, a file opened
-- for the user, the telemetry event with the number of artifacts and their bytes.
pub data ArtifactEvent : Type 0 where
  make_directory create_file : Bytes → ArtifactEvent
  copy_contents : Bytes → Bytes → ArtifactEvent
  write_whole : Bytes → Bytes → ℕ → ArtifactEvent
  change_mode : Bytes → ℕ → ArtifactEvent
  asked : ArtifactEvent
  slept : ℕ → ArtifactEvent
  opened : Bytes → ArtifactEvent
  recorded : ℕ → ℕ → ArtifactEvent

-- What os.Stat finds.
pub data PathInfo : Type 0 where
  a_directory a_file missing : PathInfo
  unreadable : GoError → PathInfo

-- The disk, as it answers after what was asked of it before.
pub record Disk : Type 0 where
  pub answer : List ArtifactEvent → ArtifactEvent → Option GoError
  pub stat : List ArtifactEvent → Bytes → PathInfo

abbrev pub Extraction {ℓ} : Type ℓ → Type ℓ
Extraction V = Traced ArtifactEvent V

-- What `tar` reads: an entry that is a directory, a file or another kind, such as a link.
pub data EntryKind : Type 0 where
  directory regular other : EntryKind

pub record TarEntry : Type 0 where
  pub name : Bytes
  pub kind : EntryKind
  pub mode : ℕ
  pub contents : Bytes

-- The test against names that lead out of the directory.
unfoldable pub is_inside : Bytes → Bytes → Bool
is_inside dest_dir file_path =
    clean file_path == clean dest_dir || has_prefix (clean file_path) (clean dest_dir ++ codes "/")

module _ (d : Disk) where
  unfoldable pub ask_disk : ArtifactEvent → Extraction (Option GoError)
  ask_disk e h = (d.answer h e, e ∷ h)

  -- A file with its directories, contents and mode; the error, if one of the steps is refused.
  unfoldable pub extract_file : Bytes → TarEntry → Extraction (Option GoError)
  extract_file path entry = do
    no_parent ← ask_disk (make_directory (dir path))
    on_error no_parent
        (λ e. return (some (wrap (codes "unable to create directory for " ++ path) e)))
        (do
          no_file ← ask_disk (create_file path)
          on_error no_file (λ e. return (some (wrap (codes "unable to create file " ++ path) e)))
              (do
                no_contents ← ask_disk (copy_contents path entry.contents)
                on_error no_contents
                    (λ e. return (some (wrap (codes "unable to extract file " ++ path) e)))
                    (do
                      no_mode ← ask_disk (change_mode path entry.mode)
                      on_error no_mode
                          (λ e.
                            return (some (wrap (codes "unable to set permissions for " ++ path) e)))
                          (return none))))

  -- One entry by its kind: the files that it adds.
  unfoldable pub extract_entry :
      EntryKind → Bytes → TarEntry → Extraction (Result GoError (List Bytes))
  extract_entry directory path entry = do
    failed ← ask_disk (make_directory path)
    on_error failed (λ e. return (err (wrap (codes "unable to create directory " ++ path) e)))
        (return (ok []))
  extract_entry regular path entry = do
    failed ← extract_file path entry
    on_error failed (λ e. return (err e)) (return (ok (path ∷ [])))
  extract_entry other path entry = return (ok [])

  -- `extractTar` of what the reader of the archive gives, up to its end.
  unfoldable pub extract_tar :
      Bytes → List (Result GoError TarEntry) → Extraction (Result GoError (List Bytes))
  extract_tar dest_dir [] = return (ok [])
  extract_tar dest_dir (next ∷ archive) =
      on_result next (λ e. return (err (wrap (codes "unable to read tar header") e)))
        (λ entry.
          if is_inside dest_dir (join dest_dir entry.name)
          then (do
            added ← extract_entry entry.kind (join dest_dir entry.name) entry
            on_result added (λ e. return (err e))
                (λ files. do
                  more ← extract_tar dest_dir archive
                  on_result more (λ e. return (err e)) (λ later. return (ok (files ++ later)))))
          else return (err (new_error (codes "invalid file path in tar: " ++ entry.name))))

  unfoldable pub stat_path : Bytes → Extraction PathInfo
  stat_path path h = (d.stat h path, h)

  unfoldable pub prepare : PathInfo → Bytes → Extraction (Option GoError)
  prepare a_directory path = return none
  prepare a_file path =
      return (
        some (new_error (codes "output path " ++ path ++ codes " is a file, expected a directory")))
  prepare missing path = ask_disk (make_directory path)
  prepare (unreadable e) path =
      return (some (wrap (codes "unable to inspect output path " ++ path) e))

  unfoldable pub prepare_directory_output : Bytes → Extraction (Option GoError)
  prepare_directory_output path = do info ← stat_path path; prepare info path

  unfoldable pub prepare_file : PathInfo → Bytes → Extraction (Option GoError)
  prepare_file a_directory path =
      return (
        some (new_error (codes "output path " ++ path ++ codes " is a directory, expected a file")))
  prepare_file (unreadable e) path =
      return (some (wrap (codes "unable to inspect output path " ++ path) e))
  prepare_file _ path = do
    failed ← ask_disk (make_directory (dir path))
    return (elim failed [
      | none ↦ none
      | some e ↦ some (wrap (codes "unable to create output directory " ++ dir path) e)
    ])

  unfoldable pub prepare_file_output : Bytes → Extraction (Option GoError)
  prepare_file_output path = do info ← stat_path path; prepare_file info path

  unfoldable pub prepare_directories : Bytes → List Bytes → Extraction (Result GoError (List Bytes))
  prepare_directories collection_dir [] = return (ok [])
  prepare_directories collection_dir (name ∷ names) = do
    failed ← prepare_directory_output (join collection_dir name)
    on_error failed
        (λ e.
          return
            (err (wrap (codes "unable to create output directory " ++ join collection_dir name) e)))
        (do
          made ← prepare_directories collection_dir names
          on_result made (λ e. return (err e))
              (λ dirs. return (ok (join collection_dir name ∷ dirs))))

  -- `artifactOutputDirs` for the keys of the artifacts. The choice of the names asks nothing of the
  -- disk, so it stands first; `none` if it ran out of rounds.
  unfoldable pub artifact_output_dirs :
      Bytes → List Bytes → Extraction (Option (Result GoError (List Bytes)))
  artifact_output_dirs collection_dir keys =
      on_error (output_names keys)
        (λ names. do dirs ← prepare_directories collection_dir names; return (some dirs))
        (return none)
