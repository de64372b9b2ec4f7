-- ===== src/SandboxSync/Pull.antt =====
-- internal/cli/service_sandbox.go: `pullChangesFromSandbox`.
use rwx.Prelude.{
  ℕ, not, Option, none, some, List, [], ◌∷◌, ◌++◌, ◌==◌, nat_eq, Bytes, codes, length, trim_space,
  if◌then◌else◌,
}
use rwx.Prelude.Decimal.{decimal}
use rwx.Prelude.FilePath.{join}
use rwx.Prelude.Result.{Result, ok, err}
use rwx.Errors.{new_error, GoError, error, wrap, mark, patch}
use rwx.SandboxSync.Shell.{quote_all, sandbox_worktree_root_command, split_nul_strings}
use rwx.SandboxSync.Patches.{parse_patch_files}
use rwx.Prelude.Traced.{◌>>=◌, ◌>>◌, return, on_error, on_result, on_empty, log}
use rwx.SandboxSync.Session.{
  execute_with_output, apply_patch, apply_patch_reject, remove, warn, World, Session, send, run,
  sync_start, sync_end,
}
use rwx.SandboxSync.Push.{write}

pub record Pulled : Type 0 where
  pub files : List Bytes
  pub patch_bytes : ℕ
  pub failure : Option GoError

abbrev pub pull_failed : ℕ → GoError → Pulled
pull_failed n e = record { files = []; patch_bytes = n; failure = some e }

-- `git diff` against the reference, with the flags of `PatchDiffArgs`.
unfoldable pub diff_command : Bytes
diff_command =
    codes
      "/usr/bin/git -c diff.suppressBlankEmpty=false diff --no-ext-diff --no-textconv --no-color --no-relative --src-prefix=a/ --dst-prefix=b/ --submodule=short --ignore-submodules=dirty --binary --full-index --no-renames refs/rwx-sync"

unfoldable pub add_command : List Bytes → Bytes
unfolding quote_all sandbox_worktree_root_command
add_command files =
    sandbox_worktree_root_command (codes "/usr/bin/git add -N -- " ++ quote_all files)

unfoldable pub reset_command : List Bytes → Bytes
unfolding quote_all sandbox_worktree_root_command
reset_command files =
    sandbox_worktree_root_command (codes "/usr/bin/git reset HEAD -- " ++ quote_all files)

-- How listing and staging fail.
unfoldable pub git_error : Bytes → Bytes → Result GoError (ℕ × Bytes) → Option GoError
unfolding decimal
git_error text command (err e) = some (wrap text e)
git_error text command (ok (code, _)) =
    if code == 0
    then none
    else some (
        new_error
          (text ++ codes ": git " ++ command ++ codes " failed with exit code " ++ decimal code))

unfoldable pub output_of : Result GoError (ℕ × Bytes) → Bytes
output_of (err e) = []
output_of (ok (_, output)) = output

unfoldable pub reset_warning : Result GoError (ℕ × Bytes) → Option Bytes
unfolding decimal error
reset_warning (err e) =
    some (codes "Warning: failed to reset staged files in sandbox: " ++ error e ++ codes "\n")
reset_warning (ok (code, _)) =
    if code == 0
    then none
    else some (
        codes "Warning: failed to reset staged files in sandbox (exit code "
        ++ decimal code
        ++ codes ")\n")

unfoldable pub conflict_lines : List Bytes → Bytes
conflict_lines [] = []
conflict_lines (file ∷ files) =
    codes "  " ++ file ++ codes " (see " ++ file ++ codes ".rej)\n" ++ conflict_lines files

unfoldable pub conflict_text : List Bytes → Bytes → Bytes
conflict_text (file ∷ files) output =
    codes "patch partially applied. "
    ++ decimal (length (file ∷ files))
    ++ codes " file(s) have conflicts:\n"
    ++ conflict_lines (file ∷ files)
    ++ codes "Resolve the conflicts in each .rej file, then delete the .rej files."
conflict_text [] (c ∷ output) = codes "failed to apply patch locally: " ++ trim_space (c ∷ output)
conflict_text [] [] = codes "failed to apply patch locally"

unfoldable pub saved_note : Option Bytes → Bytes
saved_note none = []
saved_note (some path) = codes "\nFull patch saved to " ++ path

unfoldable pub forget_saved : Option Bytes → Session (Unit {0})
forget_saved saved = on_error saved (λ path. log (remove path)) (return tt)

module _ (w : World) where
  -- The untracked files are added with the intent to add them.
  unfoldable pub intend_to_add : List Bytes → Session (Option GoError)
  intend_to_add untracked = on_empty untracked (return none) (λ file files. do
    answer ← run w (execute_with_output (add_command (file ∷ files)))
    return (git_error (codes "failed to stage untracked files in sandbox") (codes "add") answer))

  -- The intent is taken back; a failure only warns.
  unfoldable pub undo_intent : List Bytes → Session (Unit {0})
  undo_intent untracked = on_empty untracked (return tt) (λ file files. do
    answer ← run w (execute_with_output (reset_command (file ∷ files)))
    on_error (reset_warning answer) (λ text. log (warn (text ∷ []))) (return tt))

  -- What the sandbox has changed, read between the markers.
  unfoldable pub read_changes : Session (Result GoError (Result GoError (ℕ × Bytes)))
  read_changes = do
    send sync_start
    listed ← run w (
        execute_with_output (
          sandbox_worktree_root_command
            (codes "/usr/bin/git ls-files -z --others --exclude-standard")))
    on_error
        (git_error (codes "failed to list untracked files in sandbox") (codes "ls-files") listed)
        (λ e. do send sync_end; return (err e))
        (do
          let untracked = split_nul_strings (output_of listed)
          failed ← intend_to_add untracked
          on_error failed (λ e. do send sync_end; return (err e))
              (do
                diff ← run w (execute_with_output (sandbox_worktree_root_command diff_command))
                undo_intent untracked
                send sync_end
                return (ok diff)))

  -- The patch is kept for inspection: its path, or nothing where it could not be written.
  unfoldable pub save_rejected_patch : Bytes → Session (Option Bytes)
  save_rejected_patch contents =
      on_error w.rwx_directory
        (λ rwx_dir.
          let path = join (join rwx_dir (codes "sandboxes")) (codes "patch-rejected.diff") in
          if not w.can_make_directory then return none else (do
            failed ← write w path contents
            on_error failed (λ e. return none) (return (some path))))
        (return none)

  unfoldable pub attempt : Bytes → Session (Option GoError)
  attempt contents h = (w.apply_patch h contents, apply_patch contents ∷ h)

  unfoldable pub attempt_reject : Bytes → Session (Bytes × Option GoError)
  attempt_reject contents h = (w.apply_patch_reject h contents, apply_patch_reject contents ∷ h)

  unfoldable pub find_rej_files : Bytes → List Bytes → Session (List Bytes)
  find_rej_files cwd [] h = ([], h)
  find_rej_files cwd (file ∷ files) h =
      let rest = (find_rej_files cwd files h).0 in
      (if w.exists h (join cwd (file ++ codes ".rej")) then file ∷ rest else rest, h)

  -- The patch is applied whole, or failing that what can be applied of it, with .rej files for the rest.
  unfoldable pub apply_locally : Bytes → List Bytes → Bytes → Session (Option GoError)
  apply_locally cwd files contents = do
    failed ← attempt contents
    on_error failed
        (λ e. do
          saved ← save_rejected_patch contents
          rejected ← attempt_reject contents
          on_error rejected.1
              (λ f. do
                rej_files ← find_rej_files cwd files
                return (
                    some (
                      mark (new_error (conflict_text rej_files rejected.0 ++ saved_note saved))
                        patch)))
              (do forget_saved saved; return none))
        (return none)

  unfoldable pub apply_unless_blank : Bytes → List Bytes → Bytes → Session (Option GoError)
  apply_unless_blank cwd files contents =
      on_empty (trim_space contents) (return none) (λ c text. apply_locally cwd files contents)

  -- With an error of SSH the client gives no output, so the diff has no bytes then.
  unfoldable pub pull_changes_from_sandbox : Bytes → Session Pulled
  pull_changes_from_sandbox cwd = do
    changes ← read_changes
    on_result changes (λ e. return (pull_failed 0 e))
        (λ diff.
          on_result diff
            (λ e. return (pull_failed 0 (wrap (codes "failed to get diff from sandbox") e)))
            (λ done.
              if done.0 == 0
              then on_empty (parse_patch_files done.1)
                  (return (record { files = []; patch_bytes = 0; failure = none }))
                  (λ file files. do
                    failed ← apply_unless_blank cwd (file ∷ files) done.1
                    return (record {
                      files = file ∷ files;
                      patch_bytes = length done.1;
                      failure = failed;
                    }))
              else return (
                  pull_failed (length done.1) (
                    new_error (
                      codes "failed to get changes from sandbox: git diff failed with exit code "
                      ++ decimal done.0)))))
