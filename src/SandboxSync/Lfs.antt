-- ===== src/SandboxSync/Lfs.antt =====
-- internal/cli/service_sandbox.go and lfs_errors.go: Git LFS objects that the sandbox lacks.
use rwx.Prelude.{
  ℕ, zero, suc, ◌+◌, Bool, true, false, ◌&&◌, ◌||◌, Option, none, some, List, [], ◌∷◌, ◌++◌, ◌==◌,
  nat_eq, bytes_eq, Bytes, codes, index, has_prefix, trim_space, split, drop, length, leb,
  if◌then◌else◌,
}
use mathlib.Core.Option
use rwx.Prelude.Decimal.{decimal}
use rwx.Prelude.Result.{ok, err}
use rwx.Errors.{new_error, GoError, wrap, mark, patch}
use rwx.Vcs.{FilesMetadata}
use rwx.SandboxSync.Shell.{quote_shell_arg, sandbox_worktree_root_command}
use rwx.SandboxSync.Patches.{has_seen}
use rwx.Prelude.Traced.{◌>>=◌, return}
use rwx.SandboxSync.Session.{execute_with_output, World, Session, run}

unfoldable pub is_hex : ℕ → Bool
is_hex c = leb b'0' c && leb c b'9' || leb b'a' c && leb c b'f' || leb b'A' c && leb c b'F'

-- How many hexadecimal digits stand in front.
unfoldable pub hex_length : Bytes → ℕ
unfolding is_hex
hex_length [] = 0
hex_length (c ∷ s) = if is_hex c then suc (hex_length s) else 0

-- ` \([0-9a-fA-F]{40,64}\)` matches in front.
unfoldable pub oid_follows : Bytes → Bool
unfolding hex_length has_prefix
oid_follows s =
    let n = hex_length (drop 2 s) in
    has_prefix s (codes " (") && leb 40 n && leb n 64 && has_prefix (drop n (drop 2 s)) (codes ")")

-- `(.+?)` before it: the shortest text of at least one character.
unfoldable pub shortest_path : Bytes → Option Bytes
unfolding oid_follows
shortest_path [] = none
shortest_path (c ∷ s) =
    let longer = shortest_path s in
    if oid_follows s then some (c ∷ []) else Option.map (λ path. c ∷ path) longer

-- `lfsFsckObjectLineRe`: the path in `objects: <kind>: <path> (<oid>)`.
unfoldable pub fsck_object_path : Bytes → Option Bytes
unfolding shortest_path index has_prefix
fsck_object_path line =
    if has_prefix line (codes "objects: ")
    then elim (index (drop 9 line) (codes ":")) [
      | none ↦ none
      | some zero ↦ none
      | some (suc i) ↦
          if has_prefix (drop (suc i) (drop 9 line)) (codes ": ")
          then shortest_path (drop (suc i + 2) (drop 9 line))
          else none
    ]
    else none

-- The file of a line, if it has one that is not empty.
unfoldable pub line_file : Bytes → Option Bytes
unfolding fsck_object_path trim_space
line_file line = elim (fsck_object_path (trim_space line)) [
  | none ↦ none
  | some path ↦ elim (trim_space path) [ [] ↦ none | c ∷ file ↦ some (c ∷ file) ]
]

unfoldable pub files_of_output : List Bytes → List Bytes → List Bytes
unfolding line_file has_seen
files_of_output seen [] = []
files_of_output seen (line ∷ lines) = elim (line_file line) [
  | none ↦ files_of_output seen lines
  | some file ↦ elim (has_seen file seen) [
    | true ↦ files_of_output seen lines
    | false ↦ file ∷ files_of_output (file ∷ seen) lines
  ]
]

unfoldable pub sandbox_lfs_files_from_fsck_output : Bytes → List Bytes
unfolding files_of_output split
sandbox_lfs_files_from_fsck_output output = files_of_output [] (split b'\n' output)

-- The lines, each indented, with a line break between them.
unfoldable pub indent_lines : List Bytes → Bytes
indent_lines [] = []
indent_lines (line ∷ []) = codes "  " ++ line
indent_lines (line ∷ next ∷ lines) = codes "  " ++ line ++ (b'\n' ∷ indent_lines (next ∷ lines))

abbrev sandbox_lfs_recovery : Bytes
sandbox_lfs_recovery = codes "To recover, push your changes and reset the sandbox."

abbrev cannot_be_synced : Bytes
cannot_be_synced = codes " LFS file(s) changed locally and cannot be synced to the sandbox:\n"

unfoldable pub sandbox_lfs_changes_error : FilesMetadata → GoError
unfolding indent_lines decimal mark
sandbox_lfs_changes_error changed =
    let count = if changed.count == 0 then length changed.files else changed.count in
    mark
      (new_error (
        decimal count
        ++ cannot_be_synced
        ++ indent_lines changed.files
        ++ codes "\n\n"
        ++ sandbox_lfs_recovery))
      patch

unfoldable pub sandbox_lfs_fsck_error : Bytes → Bytes → ℕ → GoError
unfolding sandbox_lfs_files_from_fsck_output indent_lines decimal trim_space
sandbox_lfs_fsck_error local_head output exit_code =
    let trimmed = trim_space output in
    elim (sandbox_lfs_files_from_fsck_output trimmed) [
      | file ∷ files ↦ new_error (
          decimal (suc (length files))
          ++ cannot_be_synced
          ++ indent_lines (file ∷ files)
          ++ codes "\n\n"
          ++ sandbox_lfs_recovery)
      | [] ↦ elim trimmed [
        | [] ↦ new_error (
            codes "LFS file(s) changed locally and cannot be synced to the sandbox for commit "
            ++ local_head
            ++ codes " (git lfs fsck exit code "
            ++ decimal exit_code
            ++ codes ").\n\n"
            ++ sandbox_lfs_recovery)
        | c ∷ text ↦ new_error (
            codes "LFS file(s) changed locally and cannot be synced to the sandbox for commit "
            ++ local_head
            ++ codes ".\n\n"
            ++ sandbox_lfs_recovery
            ++ codes "\n\nGit LFS check output:\n"
            ++ (c ∷ text))
      ]
    ]

unfoldable pub sandbox_lfs_fsck_command : Bytes → Bytes
unfolding sandbox_worktree_root_command quote_shell_arg
sandbox_lfs_fsck_command local_head = sandbox_worktree_root_command (
    codes "if /usr/bin/git lfs version >/dev/null 2>&1; then /usr/bin/git lfs fsck --objects "
    ++ quote_shell_arg local_head
    ++ codes " 2>&1; fi")

module _ (w : World) where
  -- What is missing, and why it could not be checked.
  unfoldable pub check_sandbox_lfs_objects : Bytes → Session (Option GoError × Option GoError)
  check_sandbox_lfs_objects local_head = do
    answer ← run w (execute_with_output (sandbox_lfs_fsck_command local_head))
    return (elim answer [
      | err e ↦ (none, some (wrap (codes "failed to check sandbox Git LFS objects") e))
      | ok (code, output) ↦
          if code == 0
          then (none, none)
          else (some (sandbox_lfs_fsck_error local_head output code), none)
    ])

  unfoldable pub verify_sandbox_lfs_objects : Bytes → Session (Option GoError)
  verify_sandbox_lfs_objects local_head = do
    checked ← check_sandbox_lfs_objects local_head
    return (elim checked.1 [ some e ↦ some e | none ↦ checked.0 ])
