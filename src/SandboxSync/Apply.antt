-- ===== src/SandboxSync/Apply.antt =====
-- internal/cli/service_sandbox.go: how uncommitted changes reach the sandbox, and the reference that
-- later pulls are compared with.
use rwx.Prelude.{
  ℕ, Bool, true, false, Option, none, some, List, [], ◌∷◌, ◌++◌, ◌==◌, nat_eq, Bytes, codes,
  trim_space, if◌then◌else◌,
}
use rwx.Prelude.Decimal.{decimal}
use rwx.Prelude.Result.{Result, ok, err}
use rwx.Errors.{new_error, GoError, wrap, mark, patch}
use rwx.SandboxSync.Shell.{quote_all, sandbox_worktree_root_command}
use rwx.SandboxSync.Patches.{DirtyPatches, new_file_paths_for_dirty_patches}
use rwx.Prelude.Traced.{◌>>=◌, ◌>>◌, return, on_error, on_empty}
use rwx.SandboxSync.Session.{
  SyncEvent, execute_command, execute_with_stdin, World, Session, send, run, sync_start, sync_end,
}

-- `err != nil` with a text in front, or an exit code that is not 0 with the text and the code.
unfoldable pub exit_error : Bytes → Result GoError (ℕ × Bytes) → Option GoError
unfolding decimal
exit_error text (err e) = some (wrap text e)
exit_error text (ok (code, _)) =
    if code == 0
    then none
    else some (new_error (text ++ codes " (exit code " ++ decimal code ++ codes ")"))

-- How an answer of `git apply` is understood.
unfoldable pub apply_error : Result GoError (ℕ × Bytes) → Option GoError
unfolding decimal mark trim_space
apply_error (err e) = some (mark (wrap (codes "failed to apply patch on sandbox") e) patch)
apply_error (ok (code, output)) =
    if code == 127
    then some (
        new_error (
          codes
            "git is not installed in the sandbox. Add a task that installs git before the sandbox task"))
    else if code == 0
    then none
    else elim (trim_space output) [
      | c ∷ text ↦ some (
          mark
            (new_error
              (codes "failed to sync changes to sandbox: git apply failed: " ++ (c ∷ text)))
            patch)
      | [] ↦ some (
          mark
            (new_error (
              codes "failed to sync changes to sandbox: git apply failed with exit code "
              ++ decimal code))
            patch)
    ]

module _ (w : World) where
  -- One command between the markers.
  unfoldable pub in_markers : SyncEvent → Session (Result GoError (ℕ × Bytes))
  in_markers e = do send sync_start; answer ← run w e; send sync_end; return answer

  unfoldable pub apply_patch_to_sandbox : Bytes → Bytes → Session (Option GoError)
  apply_patch_to_sandbox command contents = do
    answer ← in_markers (execute_with_stdin (sandbox_worktree_root_command command) contents)
    return (apply_error answer)

  unfoldable pub apply_unless_empty : Bytes → Bytes → Session (Option GoError)
  apply_unless_empty command contents =
      on_empty contents (return none) (λ c rest. apply_patch_to_sandbox command (c ∷ rest))

  unfoldable pub apply_dirty_patches_to_sandbox : DirtyPatches → Session (Option GoError)
  apply_dirty_patches_to_sandbox p = do
    failed ← apply_unless_empty (codes "/usr/bin/git apply --index --allow-empty -") p.staged
    on_error failed (λ e. return (some e))
        (apply_unless_empty (codes "/usr/bin/git apply --allow-empty -") p.unstaged)

  unfoldable pub remove_paths : List Bytes → Session (Option GoError)
  remove_paths new_files = on_empty new_files (return none) (λ path paths. do
    answer ← in_markers (
        execute_command (
          sandbox_worktree_root_command (
            codes "/usr/bin/git clean -fdx -- "
            ++ quote_all (path ∷ paths)
            ++ codes " >/dev/null 2>&1")))
    return (exit_error (codes "failed to prepare new sandbox files for sync") answer))

  unfoldable pub remove_pre_applied_new_files : DirtyPatches → Session (Option GoError)
  remove_pre_applied_new_files p = remove_paths (new_file_paths_for_dirty_patches p)

  -- What is staged for the reference: nothing or the dirty paths of a new sandbox, else everything.
  unfoldable pub stage : Bool → List Bytes → Bytes
  stage false paths = codes "/usr/bin/git add -A && "
  stage true [] = []
  stage true (path ∷ paths) =
      codes "/usr/bin/git update-index --add --remove -- "
      ++ quote_all (path ∷ paths)
      ++ codes " && "

  unfoldable pub snapshot_script : Bool → List Bytes → Bytes
  snapshot_script is_new_sandbox local_paths =
      codes
        "index_tree=$(/usr/bin/git write-tree) || exit 1; /usr/bin/git update-ref -d refs/rwx-sync 2>/dev/null || true; "
      ++ stage is_new_sandbox local_paths
      ++ codes
          "/usr/bin/git -c user.name=rwx -c user.email=rwx -c core.hooksPath=/dev/null commit --allow-empty --no-verify -m rwx-sync >/dev/null 2>&1 && /usr/bin/git update-ref refs/rwx-sync HEAD && /usr/bin/git reset --mixed HEAD~1 >/dev/null 2>&1 && /usr/bin/git read-tree \"$index_tree\""

  unfoldable pub snapshot_sandbox_sync_ref : Bool → List Bytes → Session (Option GoError)
  snapshot_sandbox_sync_ref is_new_sandbox local_paths = do
    answer ← in_markers (
        execute_command
          (sandbox_worktree_root_command (snapshot_script is_new_sandbox local_paths)))
    return (exit_error (codes "failed to create sync snapshot ref") answer)
