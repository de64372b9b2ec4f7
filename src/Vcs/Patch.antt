-- ===== src/Vcs/Patch.antt =====
-- A patch as a file and as bytes.
use rwx.Prelude.{
  Bool, Bool-cases, true, false, not, Option, none, some, [], Bytes, ltb, ◌≡◌, inl, inr, ◌&&◌,
  arith, if◌then◌else◌,
}
use rwx.Prelude.Result.{Result, ok, err}
use rwx.Prelude.FilePath.{join}
use rwx.Vcs.{
  PatchResult, PatchFile, FilesMetadata, WriteError, not_generated, no_directory, not_written,
  no_files, write_file, patch_bytes,
}

-- The file to expect of what `Bytes` reports.
abbrev pub expected_file :
    Bool
    → Bool
    → PatchResult
    → Bytes
    → Option Bytes × Option FilesMetadata
    → Result WriteError PatchFile × Option (Bytes × Bytes)
expected_file can_make can_write r dir (_, some lfs) = (
  ok (record { written = false; path = []; untracked_files = no_files; lfs_changed_files = lfs }),
  none,
)
expected_file can_make can_write r dir (none, none) = (
  ok (record {
    written = false;
    path = [];
    untracked_files = r.untracked;
    lfs_changed_files = no_files;
  }),
  none,
)
expected_file can_make can_write r dir (some patch, none) =
    if can_make && can_write
    then (
      ok (record {
        written = true;
        path = join dir r.sha;
        untracked_files = r.untracked;
        lfs_changed_files = no_files;
      }),
      some (join dir r.sha, patch),
    )
    else (err (if can_make then not_written else no_directory), none)

-- What `WriteFile` does, told by what `Bytes` reports: without patch data it fails; LFS files
-- stand in for the patch; without any patch no file is written and the untracked files are reported;
-- and a patch is written under the name of its base commit, byte for byte, where the directory can
-- be made and the file be written. On every failure nothing is written.
pub write_file-patch_bytes :
    (can_make can_write : Bool) (r : PatchResult) (dir : Bytes)
    → write_file can_make can_write r dir ≡ (
        if not r.is_ok
        then (err not_generated, none)
        else expected_file can_make can_write r dir (patch_bytes r))
unfolding write_file patch_bytes
write_file-patch_bytes can_make can_write r dir = elim (Bool-cases r.is_ok) [
  | inr e ↦ simp e
  | inl e ↦ elim (Bool-cases (ltb 0 r.lfs.count)) [
    | inl f ↦ simp (e, f)
    | inr f ↦ ground (arith, e, f)
  ]
]
