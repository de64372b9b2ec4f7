-- ===== src/SandboxSync/Patches.antt =====
-- internal/cli/service_sandbox.go and internal/vcs/vcstypes/vcstypes.go: which files a patch is
-- about.
use rwx.Prelude.{
  ℕ, ◌+◌, Bool, true, false, ◌&&◌, ◌||◌, not, Option, none, some, List, [], ◌∷◌, ◌++◌, ◌==◌,
  bytes_eq, bytes_beq, Bytes, codes, has_prefix, trim_prefix, split, length, drop, any,
  if◌then◌else◌,
}
use rwx.Vcs.{FilesMetadata}

pub record DirtyPatches : Type 0 where
  pub staged : Bytes
  pub unstaged : Bytes
  pub files : List Bytes
  pub new_files : List Bytes
  pub lfs_changed_files : Option FilesMetadata

-- `DirtyPatches.Size`
unfoldable pub size : DirtyPatches → ℕ
size p = length p.staged + length p.unstaged

abbrev pub diff_git : Bytes
diff_git = codes "diff --git"

abbrev pub new_file_mode : Bytes
new_file_mode = codes "new file mode"

-- The path in a line `diff --git a/path b/path`, cut at its spaces; `none` for less than four parts.
unfoldable pub header_path : Bytes → Option Bytes
unfolding split trim_prefix
header_path line = elim (drop 3 (split b' ' line)) [
  | [] ↦ none
  | part ∷ parts ↦ some (trim_prefix part (codes "b/"))
]

unfoldable pub files_of_lines : List Bytes → List Bytes
unfolding header_path has_prefix
files_of_lines [] = []
files_of_lines (line ∷ lines) =
    let rest = files_of_lines lines in
    if has_prefix line diff_git
    then elim (header_path line) [ none ↦ rest | some file ↦ file ∷ rest ]
    else rest

unfoldable pub parse_patch_files : Bytes → List Bytes
unfolding files_of_lines split
parse_patch_files patch = files_of_lines (split b'\n' patch)

-- One line: the path of the block that it leaves current, and the path that it adds.
unfoldable pub scan_line : Bytes → Bytes → Bytes × List Bytes
unfolding header_path has_prefix bytes_beq
scan_line current line =
    if has_prefix line diff_git
    then (elim (header_path line) [ none ↦ [] | some file ↦ file ], [])
    else if has_prefix line new_file_mode && not (current == [])
    then ([], current ∷ [])
    else (current, [])

unfoldable pub new_files_of_lines : Bytes → List Bytes → List Bytes
unfolding scan_line
new_files_of_lines current [] = []
new_files_of_lines current (line ∷ lines) =
    let scanned = scan_line current line in scanned.1 ++ new_files_of_lines scanned.0 lines

unfoldable pub parse_new_file_paths : Bytes → List Bytes
unfolding new_files_of_lines split
parse_new_file_paths patch = new_files_of_lines [] (split b'\n' patch)

-- `seen[path]`
unfoldable pub has_seen : Bytes → List Bytes → Bool
unfolding bytes_beq
has_seen path seen = any (λ s. s == path) seen

-- The paths that are not empty and not seen before, each once.
unfoldable pub collect_unseen : List Bytes → List Bytes → List Bytes
unfolding has_seen bytes_beq
collect_unseen seen [] = []
collect_unseen seen (path ∷ paths) = elim (path == [] || has_seen path seen) [
  | true ↦ collect_unseen seen paths
  | false ↦ path ∷ collect_unseen (path ∷ seen) paths
]

unfoldable pub new_file_paths_for_dirty_patches : DirtyPatches → List Bytes
unfolding parse_new_file_paths collect_unseen
new_file_paths_for_dirty_patches p = elim p.new_files [
  | path ∷ paths ↦ path ∷ paths
  | [] ↦ collect_unseen [] (parse_new_file_paths p.staged ++ parse_new_file_paths p.unstaged)
]
