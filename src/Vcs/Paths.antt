-- ===== src/Vcs/Paths.antt =====
-- Lists of paths: git's -z output, and the files that git-lfs filters.
use rwx.Prelude.{
  split, ℕ, Bool, true, false, ◌&&◌, not, Option, none, some, List, [], ◌∷◌, ◌++◌, ◌==◌, nat_eq,
  Bytes, bytes_eq, bytes_beq, codes, contains, has_byte, length, if◌then◌else◌, ◌≡◌, refl, ap, sym,
  arith, all, append_assoc, append-nil,
}
use rwx.Prelude.Cut.{split-nonempty, split-append}
use rwx.Prelude.Result.{Result, ok, err}
use rwx.Vcs.{
  drop_empty, split_nul_paths, Attrs, no_command, failed, printed, PatchError, check_attr_error,
  FilesMetadata, lfs_loop, lfs_files_for_paths,
}

-- git's -z form: every path with a NUL behind it.
unfoldable pub nul_terminated : List Bytes → Bytes
nul_terminated [] = []
nul_terminated (path ∷ paths) = path ++ (0 ∷ nul_terminated paths)

-- A path as git gives it.
abbrev pub is_path : Bytes → Bool
is_path path = not (path == []) && not (has_byte 0 path)

split-nul_terminated :
    (paths : List Bytes)
    → all is_path paths ≡ true
    → drop_empty (split 0 (nul_terminated paths)) ≡ paths
unfolding drop_empty split nul_terminated bytes_beq
split-nul_terminated [] h = refl
split-nul_terminated ([] ∷ paths) h = ground arith
split-nul_terminated ((a ∷ path) ∷ paths) h =
    ground (arith, split-append 0 (a ∷ path) (nul_terminated paths), split-nul_terminated paths)

-- `SplitNULPaths` reads back every list of paths that git writes with -z: paths that are not empty
-- and hold no NUL, each with a NUL behind it.
pub split_nul_paths-nul_terminated :
    (paths : List Bytes) → all is_path paths ≡ true → split_nul_paths (nul_terminated paths) ≡ paths
unfolding split_nul_paths nul_terminated
split_nul_paths-nul_terminated [] h = refl
split_nul_paths-nul_terminated ([] ∷ paths) h = ground (arith, split-nul_terminated ([] ∷ paths))
split_nul_paths-nul_terminated ((a ∷ path) ∷ paths) h = split-nul_terminated ((a ∷ path) ∷ paths) h

split-free : (c : ℕ) (s : Bytes) → all (λ p. not (has_byte c p)) (split c s) ≡ true
unfolding split has_byte
split-free c [] = refl
split-free c (a ∷ s) = ground (arith, split-free c s, split-nonempty c s)

drop_empty-is_path :
    (parts : List Bytes)
    → all (λ p. not (has_byte 0 p)) parts ≡ true
    → all is_path (drop_empty parts) ≡ true
unfolding drop_empty bytes_beq has_byte
drop_empty-is_path [] h = refl
drop_empty-is_path ([] ∷ parts) h = drop_empty-is_path parts h
drop_empty-is_path ((a ∷ part) ∷ parts) h = ground (arith, h, drop_empty-is_path parts)

-- On any output at all, what `SplitNULPaths` returns are paths: none is empty or holds a NUL.
pub split_nul_paths-is_path : (output : Bytes) → all is_path (split_nul_paths output) ≡ true
unfolding split_nul_paths
split_nul_paths-is_path [] = refl
split_nul_paths-is_path (a ∷ output) =
    drop_empty-is_path (split 0 (a ∷ output)) (split-free 0 (a ∷ output))

module _ (check_attr : Bytes → Attrs) where
  -- The error of the check of one file, if it fails.
  check_error : Bytes → Option PatchError
  check_error [] = none
  check_error (c ∷ file) = elim (check_attr (c ∷ file)) [
    | no_command e ↦ some (check_attr_error e [])
    | failed e output ↦ some (check_attr_error e output)
    | printed _ ↦ none
  ]

  -- The file is filtered by git-lfs.
  is_lfs : Bytes → Bool
  unfolding contains
  is_lfs [] = false
  is_lfs (c ∷ file) = elim (check_attr (c ∷ file)) [
    | printed attrs ↦ contains attrs (codes "filter: lfs")
    | no_command _ ↦ false
    | failed _ _ ↦ false
  ]

  unfoldable pub first_error : List Bytes → Option PatchError
  unfolding check_error
  first_error [] = none
  first_error (file ∷ files) =
      let later = first_error files in elim (check_error file) [ none ↦ later | some e ↦ some e ]

  unfoldable pub lfs_files : List Bytes → List Bytes
  unfolding is_lfs
  lfs_files [] = []
  lfs_files (file ∷ files) =
      let later = lfs_files files in if is_lfs file then file ∷ later else later

  lfs_loop_lem :
      (found files : List Bytes)
      → lfs_loop check_attr found files
        ≡ (elim (first_error files) as (λ _. Result PatchError (List Bytes)) [
          | none ↦ ok (found ++ lfs_files files)
          | some e ↦ err e
        ])
  unfolding lfs_loop first_error lfs_files check_error is_lfs
  lfs_loop_lem found [] = ap ok (sym (append-nil found))
  lfs_loop_lem found ([] ∷ files) = lfs_loop_lem found files
  lfs_loop_lem found ((c ∷ file) ∷ files) = ground (
    arith,
    lfs_loop_lem found files,
    lfs_loop_lem (found ++ ((c ∷ file) ∷ [])) files,
    append_assoc found ((c ∷ file) ∷ []) (lfs_files files),
  )

  -- `LFSFilesForPaths` fails with the error of the first file, in order, whose check fails. If no
  -- check fails, it returns exactly the non-empty files for which git prints `filter: lfs`, in order, and
  -- their number.
  pub lfs_files_for_paths-first_error :
      (files : List Bytes)
      → lfs_files_for_paths check_attr files
        ≡ (elim (first_error files) as (λ _. Result PatchError FilesMetadata) [
          | none ↦ ok (record { files = lfs_files files; count = length (lfs_files files) })
          | some e ↦ err e
        ])
  unfolding lfs_files_for_paths
  lfs_files_for_paths-first_error files = ground (arith, lfs_loop_lem [] files)
