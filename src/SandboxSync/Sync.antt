-- ===== src/SandboxSync/Sync.antt =====
-- internal/cli/service_sandbox.go: `syncLocalChangesToSandbox`.
use rwx.Prelude.{ℕ, ltb, Bool, Option, none, some, [], ◌∷◌, ◌++◌, Bytes, codes, if◌then◌else◌}
use rwx.Prelude.Result.{Result}
use rwx.Errors.{new_error, GoError, wrap}
use rwx.Vcs.{FilesMetadata}
use rwx.SandboxSync.Shell.{quote_shell_arg, sandbox_worktree_root_command}
use rwx.SandboxSync.Patches.{DirtyPatches, size}
use rwx.Prelude.Traced.{◌>>=◌, ◌>>◌, return, on_error, on_result, on_empty, log}
use rwx.SandboxSync.Session.{
  SyncEvent, execute_command, warn, sync_push, World, Session, send, run, sync_start, sync_end,
}
use rwx.SandboxSync.Push.{
  SandboxConnectionInfo, ensure_sandbox_has_commit, sandbox_sync_failure_reason,
}
use rwx.SandboxSync.Lfs.{
  check_sandbox_lfs_objects, verify_sandbox_lfs_objects, sandbox_lfs_changes_error,
}
use rwx.SandboxSync.Apply.{
  exit_error, remove_pre_applied_new_files, apply_dirty_patches_to_sandbox,
  snapshot_sandbox_sync_ref,
}

-- What the body leaves for the deferred telemetry and the return.
pub record Pushed : Type 0 where
  pub patch_bytes : ℕ
  pub lfs_skipped_count : ℕ
  pub error : Option GoError

unfoldable pub checkout_command : Bytes → Bytes → Bytes
unfolding quote_shell_arg
checkout_command branch local_head =
    let git =
      codes "GIT_TERMINAL_PROMPT=0 GIT_ASKPASS=/bin/false SSH_ASKPASS=/bin/false /usr/bin/git" in
    let head = quote_shell_arg local_head in
    let reset = codes " >/dev/null 2>&1 && " ++ git ++ codes " reset --hard " ++ head in
    elim branch [
      | [] ↦ git ++ codes " checkout -f --detach " ++ head ++ reset ++ codes " >/dev/null 2>&1"
      | c ∷ name ↦
          git
          ++ codes " checkout -f -B "
          ++ quote_shell_arg (c ∷ name)
          ++ codes " "
          ++ head
          ++ reset
          ++ codes " >/dev/null 2>&1"
    ]

unfoldable pub lfs_changes : DirtyPatches → Option FilesMetadata
lfs_changes p = elim p.lfs_changed_files [
  | none ↦ none
  | some changed ↦ if ltb 0 changed.count then some changed else none
]

abbrev nothing_sent : GoError → Pushed
nothing_sent e = record { patch_bytes = 0; lfs_skipped_count = 0; error = some e }

unfoldable pub sync_push_event : Pushed → SyncEvent
sync_push_event p = sync_push (record {
  patch_bytes = p.patch_bytes;
  lfs_skipped_count = p.lfs_skipped_count;
  failure_reason = elim p.error [
    | none ↦ none
    | some e ↦ some (sandbox_sync_failure_reason (some e))
  ];
})

module _ (w : World) where
  unfoldable pub warn_unresolved_reject_files : Session (Unit {0})
  warn_unresolved_reject_files =
      on_empty w.reject_files (return tt) (λ file files. log (warn (file ∷ files)))

  -- The checkout of the local head between its markers.
  unfoldable pub reset_to_local_head : Bool → Bytes → Session (Option GoError)
  reset_to_local_head is_new_sandbox local_head = do
    send sync_start
    answer ←
        run w
          (execute_command (sandbox_worktree_root_command (checkout_command w.branch local_head)))
    on_error (exit_error (codes "failed to reset sandbox to local git state") answer)
        (λ e. do
          checked ← check_sandbox_lfs_objects w local_head
          send sync_end
          return (some (elim checked.0 [ some missing ↦ missing | none ↦ e ])))
        (do
          bad ← verify_sandbox_lfs_objects w local_head
          on_error bad (λ e. do send sync_end; return (some e))
              (if is_new_sandbox then (do send sync_end; return none) else (do
                cleaned ← run w (
                    execute_command (
                      sandbox_worktree_root_command
                        (codes "/usr/bin/git clean -fd >/dev/null 2>&1")))
                send sync_end
                return (exit_error (codes "failed to clean sandbox before sync") cleaned))))

  -- What is done with the patches of the uncommitted changes.
  unfoldable pub send_patches : Bool → DirtyPatches → Session Pushed
  send_patches is_new_sandbox p =
      let done : Option GoError → Pushed =
        λ e. record { patch_bytes = size p; lfs_skipped_count = 0; error = e } in
      on_error (lfs_changes p)
        (λ changed. return (record {
          patch_bytes = size p;
          lfs_skipped_count = changed.count;
          error = some (sandbox_lfs_changes_error changed);
        }))
        (do
          removed ← remove_pre_applied_new_files w p
          on_error removed (λ e. return (done (some e)))
              (do
                applied ← apply_dirty_patches_to_sandbox w p
                on_error applied (λ e. return (done (some e)))
                    (do
                      failed ← snapshot_sandbox_sync_ref w is_new_sandbox p.files
                      return (done failed))))

  unfoldable pub dirty_patches : Session (Result GoError DirtyPatches)
  dirty_patches h = (w.generate_dirty_patches h, h)

  -- The part whose outcome is sync_push_event.
  unfoldable pub push_changes : Bool → Bytes → Option SandboxConnectionInfo → Session Pushed
  push_changes is_new_sandbox local_head conn = do
    unable ← ensure_sandbox_has_commit w local_head conn
    on_error unable (λ e. return (nothing_sent e))
        (do
          failed ← reset_to_local_head is_new_sandbox local_head
          on_error failed (λ e. return (nothing_sent e))
              (do
                patches ← dirty_patches
                on_result patches
                    (λ e. return (nothing_sent (wrap (codes "failed to generate dirty patch") e)))
                    (λ p. send_patches is_new_sandbox p)))

  unfoldable pub sync_local_changes_to_sandbox :
      Bool → Option SandboxConnectionInfo → Session (ℕ × Option GoError)
  sync_local_changes_to_sandbox is_new_sandbox conn =
      let unresolvable =
        codes "sandbox push requires a repository with a resolvable working copy" in
      on_result w.head_commit (λ e. return (0, some (wrap unresolvable e)))
        (λ head. on_empty head (return (0, some (new_error unresolvable))) (λ c rest. do
          warn_unresolved_reject_files
          pushed ← push_changes is_new_sandbox (c ∷ rest) conn
          log (sync_push_event pushed)
          return (pushed.patch_bytes, pushed.error)))
