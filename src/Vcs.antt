-- ===== src/Vcs.antt =====
-- What the git and jj clients share: repository names, path lists, patches and their errors
-- (internal/vcs/vcstypes/vcstypes.go).
mod Url
mod Paths
mod Patch
mod Reason
mod Tests
use rwx.Prelude.{
  split, ℕ, ◌+◌, ◌-◌, Bool, true, false, ◌&&◌, ◌||◌, not, Option, none, some, List, [], ◌∷◌, ◌++◌,
  ◌==◌, Bytes, bytes_eq, bytes_beq, nat_eq, codes, contains, has_prefix, last_index, take, drop,
  length, ltb, trim_suffix, trim_space, to_lower, if◌then◌else◌, ◌≡◌, refl, arith,
}
use rwx.Prelude.Result.{Result, ok, err, ◌>>=◌, ◌>>◌}
use rwx.Prelude.FilePath.{join}

-- `CommitMismatchNote`
short : Bytes → Bytes
short s = if ltb 7 (length s) then take 7 s else s

unfoldable pub commit_mismatch_note : Bytes → Bytes → Bytes
unfolding has_prefix short
commit_mismatch_note head run_commit =
    if has_prefix run_commit head || has_prefix head run_commit
    then []
    else codes "Note: you're currently on commit "
      ++ short head
      ++ codes " but the most recent run on this branch was for commit "
      ++ short run_commit

-- `RepoNameFromOriginUrl`: what follows the last colon of an SSH address, what follows the last
-- slash, and the name without `.git`.
unfoldable pub after_colon : Bytes → Bytes
unfolding last_index contains
after_colon url = elim (last_index url 58) [
  | none ↦ url
  | some idx ↦ if not (contains url (codes "://")) then drop (idx + 1) url else url
]

unfoldable pub after_slash : Bytes → Bytes
unfolding last_index
after_slash url = elim (last_index url 47) [ none ↦ url | some idx ↦ drop (idx + 1) url ]

unfoldable pub repo_name_from_origin_url : Bytes → Bytes
unfolding after_colon after_slash trim_suffix
repo_name_from_origin_url url = trim_suffix (after_slash (after_colon url)) (codes ".git")

unfoldable pub drop_empty : List Bytes → List Bytes
drop_empty [] = []
drop_empty ([] ∷ parts) = drop_empty parts
drop_empty ((a ∷ part) ∷ parts) = (a ∷ part) ∷ drop_empty parts

unfoldable pub split_nul_paths : Bytes → List Bytes
unfolding split drop_empty
split_nul_paths [] = []
split_nul_paths (a ∷ output) = drop_empty (split 0 (a ∷ output))

-- A Go error as far as this code looks into it: an exec.ExitError that is found by errors.As,
-- with its exit code (`none` is -1) and captured stderr, and the message.
pub record ExecError : Type 0 where
  pub exit : Option (Option ℕ × Bytes)
  pub message : Bytes

pub record PatchError : Type 0 where
  pub command : Bytes
  pub display : Bytes
  pub stderr : Bytes
  -- `none` is -1: the command never started, or a signal ended it
  pub exit_code : Option ℕ

-- `NewPatchError`
unfoldable pub first_nonempty : Bytes → Bytes → Bytes
first_nonempty [] b = b
first_nonempty (c ∷ a) b = c ∷ a

unfoldable pub new_patch_error : Bytes → Bytes → ExecError → Bytes → PatchError
unfolding trim_space first_nonempty
new_patch_error command display e fallback_stderr =
    let rest = first_nonempty (trim_space fallback_stderr) (trim_space e.message) in
    elim e.exit [
      | none ↦ record { command = command; display = display; stderr = rest; exit_code = none }
      | some (code, stderr) ↦ record {
        command = command;
        display = display;
        stderr = first_nonempty (trim_space stderr) rest;
        exit_code = code;
      }
    ]

-- `PatchError.Error`
unfoldable pub patch_error_text : PatchError → Bytes
patch_error_text e =
    let head = codes "failed to generate patch (" ++ e.display ++ codes ")" in
    elim e.stderr [ [] ↦ head | c ∷ s ↦ head ++ codes ": " ++ (c ∷ s) ]

-- `classifyPatchStderr`
unfoldable pub classify_patch_stderr : Bytes → Bytes
unfolding to_lower contains
classify_patch_stderr stderr =
    let s = to_lower stderr in
    if contains s (codes "bad object") || contains s (codes "shallow")
    then codes "shallow_clone"
    else if contains s (codes "beyond a symbolic link")
    then codes "beyond_symlink"
    else if contains s (codes "external filter") || contains s (codes "filter-process")
    then codes "missing_external_filter"
    else if contains s (codes "signal: killed")
        || contains s (codes "out of memory")
        || contains s (codes "cannot allocate memory")
    then codes "oom_killed"
    else if contains s (codes "lfs file(s) changed locally")
    then codes "lfs_changed"
    else if contains s (codes "already exists in working directory")
    then codes "already_exists"
    else if contains s (codes "corrupt patch")
    then codes "corrupt_patch"
    else if contains s (codes "does not apply")
        || contains s (codes "patch failed")
        || contains s (codes "partially applied")
    then codes "patch_conflict"
    else codes "unknown"

unfoldable pub reason : PatchError → Bytes
unfolding classify_patch_stderr
reason e = classify_patch_stderr e.stderr

-- `PatchFailureReason`: no error, one with a PatchError in its chain, or another.
pub data PatchFailure : Type 0 where
  no_error : PatchFailure
  patch_error : PatchError → PatchFailure
  other_error : Bytes → PatchFailure

unfoldable pub patch_failure_reason : PatchFailure → Bytes
unfolding reason classify_patch_stderr
patch_failure_reason no_error = []
patch_failure_reason (patch_error e) = reason e
patch_failure_reason (other_error message) = classify_patch_stderr message

pub record FilesMetadata : Type 0 where
  pub files : List Bytes
  pub count : ℕ

-- `LFSFilesForPaths`, where `check_attr` runs `git check-attr filter -- file`: building the command
-- fails, or running it does with its output, or it prints attributes.
pub data Attrs : Type 0 where
  no_command : ExecError → Attrs
  failed : ExecError → Bytes → Attrs
  printed : Bytes → Attrs

abbrev check_attr_error : ExecError → Bytes → PatchError
check_attr_error e output =
    new_patch_error (codes "check_attr") (codes "git check-attr filter") e output

module _ (check_attr : Bytes → Attrs) where
  unfoldable pub lfs_loop : List Bytes → List Bytes → Result PatchError (List Bytes)
  unfolding contains
  lfs_loop found [] = ok found
  lfs_loop found ([] ∷ files) = lfs_loop found files
  lfs_loop found ((c ∷ file) ∷ files) =
      let with_file = lfs_loop (found ++ ((c ∷ file) ∷ [])) files in
      let without = lfs_loop found files in
      elim (check_attr (c ∷ file)) [
        | no_command e ↦ err (check_attr_error e [])
        | failed e output ↦ err (check_attr_error e output)
        | printed attrs ↦ if contains attrs (codes "filter: lfs") then with_file else without
      ]

  unfoldable pub lfs_files_for_paths : List Bytes → Result PatchError FilesMetadata
  unfolding lfs_loop
  lfs_files_for_paths files = do
    found ← lfs_loop [] files
    ok (record { files = found; count = length found })

-- `PatchResult`: the patch generated for the working tree.
pub record PatchResult : Type 0 where
  pub patch : Bytes
  pub sha : Bytes
  pub untracked : FilesMetadata
  pub lfs : FilesMetadata
  pub is_ok : Bool

pub record PatchFile : Type 0 where
  pub written : Bool
  pub path : Bytes
  pub untracked_files : FilesMetadata
  pub lfs_changed_files : FilesMetadata

abbrev pub no_files : FilesMetadata
no_files = record { files = []; count = 0 }

pub data WriteError : Type 0 where
  not_generated : WriteError
  no_directory : WriteError
  not_written : WriteError

-- `PatchResult.WriteFile`, with whether os.MkdirAll and os.WriteFile succeed; the second part is
-- the file that is written, by its path and contents.
unfoldable pub write_file :
    Bool → Bool → PatchResult → Bytes → Result WriteError PatchFile × Option (Bytes × Bytes)
write_file can_make can_write r dest_dir =
    if not r.is_ok
    then (err not_generated, none)
    else if ltb 0 r.lfs.count
    then (
      ok (record {
        written = false;
        path = [];
        untracked_files = no_files;
        lfs_changed_files = r.lfs;
      }),
      none,
    )
    else elim r.patch [
      | [] ↦ (
        ok (record {
          written = false;
          path = [];
          untracked_files = r.untracked;
          lfs_changed_files = no_files;
        }),
        none,
      )
      | c ∷ patch ↦
          if not can_make
          then (err no_directory, none)
          else if not can_write
          then (err not_written, none)
          else (
            ok (record {
              written = true;
              path = join dest_dir r.sha;
              untracked_files = r.untracked;
              lfs_changed_files = no_files;
            }),
            some (join dest_dir r.sha, c ∷ patch),
          )
    ]

-- `PatchResult.Bytes`
unfoldable pub patch_bytes : PatchResult → Option Bytes × Option FilesMetadata
patch_bytes r =
    if not r.is_ok
    then (none, none)
    else if ltb 0 r.lfs.count
    then (none, some r.lfs)
    else elim r.patch [ [] ↦ (none, none) | c ∷ patch ↦ (some (c ∷ patch), none) ]
