-- ===== src/SandboxSync/MarkedSync.antt =====
-- The markers around the commands of `syncLocalChangesToSandbox`.
use rwx.Prelude.{Bool, false, Option, some, List, Bytes, ◌≡◌, refl}
use rwx.SandboxSync.Patches.{DirtyPatches}
use rwx.Prelude.Traced.{log}
use rwx.SandboxSync.Session.{execute_with_output, execute_with_stdin, warn, History, World, run}
use rwx.Prelude.Leads.{Leads}
use rwx.SandboxSync.Markers.{
  inside, next_mark, marks, Marked, Closed, Opened, marks-step, marked_rules,
  ensure_sandbox_has_commit-Leads,
}
use rwx.SandboxSync.Push.{SandboxConnectionInfo}
use rwx.SandboxSync.Lfs.{check_sandbox_lfs_objects, verify_sandbox_lfs_objects}
use rwx.SandboxSync.Apply.{
  in_markers, apply_patch_to_sandbox, apply_unless_empty, apply_dirty_patches_to_sandbox,
  remove_paths, remove_pre_applied_new_files, snapshot_sandbox_sync_ref,
}
use rwx.SandboxSync.Sync.{
  Pushed, warn_unresolved_reject_files, reset_to_local_head, send_patches, dirty_patches,
  push_changes, sync_push_event, sync_local_changes_to_sandbox,
}

module _ (b : Bool) where
  pub log_warn-Leads : (texts : List Bytes) → Leads (Marked b) (Marked b) (log (warn texts))
  unfolding log next_mark
  log_warn-Leads texts = record {
    at = λ h p. record { marks_are = marks-step (warn texts) h refl p.marks_are };
  }

  log-sync_push_event : (p : Pushed) → Leads (Marked b) (Marked b) (log (sync_push_event p))
  unfolding log next_mark sync_push_event
  log-sync_push_event pushed = record {
    at = λ h p. record { marks_are = marks-step (sync_push_event pushed) h refl p.marks_are };
  }

module _ (w : World) where
  pub run-output : (c : Bytes) → Leads Opened Opened (run w (execute_with_output c))
  unfolding run next_mark inside
  run-output c = record {
    at = λ h p. record { marks_are = marks-step (execute_with_output c) h refl p.marks_are };
  }

  run-stdin : (c s : Bytes) → Leads Opened Opened (run w (execute_with_stdin c s))
  unfolding run next_mark inside
  run-stdin c s = record {
    at = λ h p. record { marks_are = marks-step (execute_with_stdin c s) h refl p.marks_are };
  }

  dirty_patches-Leads : (b : Bool) → Leads (Marked b) (Marked b) (dirty_patches w)
  unfolding dirty_patches
  dirty_patches-Leads b = record { at = λ h p. p }

ruleset sync_rules =
    (marked_rules, log_warn-Leads, log-sync_push_event, run-output, run-stdin, dirty_patches-Leads)

module _ (w : World) where
  check_sandbox_lfs_objects-Leads :
      (head : Bytes) → Leads Opened Opened (check_sandbox_lfs_objects w head)
  unfolding check_sandbox_lfs_objects
  check_sandbox_lfs_objects-Leads head = search sync_rules

  verify_sandbox_lfs_objects-Leads :
      (head : Bytes) → Leads Opened Opened (verify_sandbox_lfs_objects w head)
  unfolding verify_sandbox_lfs_objects
  verify_sandbox_lfs_objects-Leads head = search (sync_rules, check_sandbox_lfs_objects-Leads)

  reset_to_local_head-Leads :
      (is_new : Bool) (head : Bytes) → Leads Closed Closed (reset_to_local_head w is_new head)
  unfolding reset_to_local_head
  reset_to_local_head-Leads is_new head =
      search (sync_rules, check_sandbox_lfs_objects-Leads, verify_sandbox_lfs_objects-Leads) depth
        14 fits 4000

  apply_patch_to_sandbox-Leads :
      (command contents : Bytes) → Leads Closed Closed (apply_patch_to_sandbox w command contents)
  unfolding apply_patch_to_sandbox in_markers
  apply_patch_to_sandbox-Leads command contents = search sync_rules depth 14 fits 4000

  apply_unless_empty-Leads :
      (command contents : Bytes) → Leads Closed Closed (apply_unless_empty w command contents)
  unfolding apply_unless_empty
  apply_unless_empty-Leads command contents = search (sync_rules, apply_patch_to_sandbox-Leads)

  apply_dirty_patches_to_sandbox-Leads :
      (p : DirtyPatches) → Leads Closed Closed (apply_dirty_patches_to_sandbox w p)
  unfolding apply_dirty_patches_to_sandbox
  apply_dirty_patches_to_sandbox-Leads p = search (sync_rules, apply_unless_empty-Leads)

  remove_pre_applied_new_files-Leads :
      (p : DirtyPatches) → Leads Closed Closed (remove_pre_applied_new_files w p)
  unfolding remove_pre_applied_new_files remove_paths in_markers
  remove_pre_applied_new_files-Leads p = search sync_rules depth 14 fits 4000

  snapshot_sandbox_sync_ref-Leads :
      (is_new : Bool) (paths : List Bytes)
      → Leads Closed Closed (snapshot_sandbox_sync_ref w is_new paths)
  unfolding snapshot_sandbox_sync_ref in_markers
  snapshot_sandbox_sync_ref-Leads is_new paths = search sync_rules depth 14 fits 4000

  send_patches-Leads :
      (is_new : Bool) (p : DirtyPatches) → Leads Closed Closed (send_patches w is_new p)
  unfolding send_patches
  send_patches-Leads is_new p =
      search
        (
          sync_rules, remove_pre_applied_new_files-Leads, apply_dirty_patches_to_sandbox-Leads,
          snapshot_sandbox_sync_ref-Leads,
        )
        depth 14 fits 4000

  push_changes-Leads :
      (is_new : Bool) (head : Bytes) (conn : Option SandboxConnectionInfo)
      → Leads Closed Closed (push_changes w is_new head conn)
  unfolding push_changes
  push_changes-Leads is_new head conn =
      search
        (sync_rules, ensure_sandbox_has_commit-Leads, reset_to_local_head-Leads, send_patches-Leads)
        depth 14 fits 4000

  warn_unresolved_reject_files-Leads : Leads Closed Closed (warn_unresolved_reject_files w)
  unfolding warn_unresolved_reject_files
  warn_unresolved_reject_files-Leads = search sync_rules

  sync-Leads :
      (is_new : Bool) (conn : Option SandboxConnectionInfo)
      → Leads Closed Closed (sync_local_changes_to_sandbox w is_new conn)
  unfolding sync_local_changes_to_sandbox
  sync-Leads is_new conn =
      search (sync_rules, push_changes-Leads, warn_unresolved_reject_files-Leads) depth 14 fits 4000

  -- On every path of a push, whatever fails, each start marker has its end marker, the two alternate, and
  -- every other remote command and the push of the commit stand between them.
  pub sync_local_changes_to_sandbox-marks :
      (is_new : Bool) (conn : Option SandboxConnectionInfo) (h : History)
      → marks h ≡ some false
      → marks (sync_local_changes_to_sandbox w is_new conn h).1 ≡ some false
  sync_local_changes_to_sandbox-marks is_new conn h e =
      ((sync-Leads is_new conn).at h (record { marks_are = e })).marks_are
