-- ===== src/SandboxSync/Success.antt =====
-- A push to a sandbox where nothing fails.
use rwx.Prelude.{ℕ, Bool, true, false, Option, none, List, [], ◌∷◌, nat_eq, Bytes, ◌≡◌, refl, ap}
use rwx.Prelude.Result.{ok}
use rwx.SandboxSync.Patches.{DirtyPatches, size, new_file_paths_for_dirty_patches}
use rwx.Prelude.Traced.{◌>>=◌, ◌>>◌, return, on_error, on_result, on_empty, log}
use rwx.SandboxSync.Session.{SyncEvent, History, World, send, run}
use rwx.SandboxSync.Push.{
  SandboxConnectionInfo, is_success, sandbox_has_commit, find_commit, ensure_sandbox_has_commit,
}
use rwx.SandboxSync.Lfs.{check_sandbox_lfs_objects, verify_sandbox_lfs_objects}
use rwx.SandboxSync.Apply.{
  exit_error, apply_error, in_markers, apply_patch_to_sandbox, apply_unless_empty,
  apply_dirty_patches_to_sandbox, remove_paths, remove_pre_applied_new_files,
  snapshot_sandbox_sync_ref,
}
use rwx.SandboxSync.Sync.{
  lfs_changes, reset_to_local_head, send_patches, dirty_patches, push_changes,
  sync_local_changes_to_sandbox,
}

-- Every command ends with exit code 0, and the uncommitted changes are `p`.
pub record NothingFails (w : World) (p : DirtyPatches) : Type 0 where
  pub output : History → SyncEvent → Bytes
  pub answers : (h : History) (e : SyncEvent) → w.ssh h e ≡ ok (0, output h e)
  pub patches : (h : History) → w.generate_dirty_patches h ≡ ok p
  pub no_lfs_changes : lfs_changes p ≡ none

module _ (w : World) (p : DirtyPatches) (fine : NothingFails w p) where
  has_commit : (sha : Bytes) (h : History) → (sandbox_has_commit w sha h).0 ≡ true
  unfolding sandbox_has_commit ◌>>=◌ run return
  has_commit sha h = ap is_success (fine.answers h _)

  found_commit : (head : Bytes) (h : History) → (find_commit w head h).0 ≡ true
  unfolding find_commit ◌>>=◌ return
  found_commit head h = simp (has_commit head h)

  ensured :
      (head : Bytes) (conn : Option SandboxConnectionInfo) (h : History)
      → (ensure_sandbox_has_commit w head conn h).0 ≡ none
  unfolding ensure_sandbox_has_commit ◌>>=◌ ◌>>◌ run send on_result return
  ensured head conn h = simp (fine.answers, found_commit)

  verified : (head : Bytes) (h : History) → (verify_sandbox_lfs_objects w head h).0 ≡ none
  unfolding verify_sandbox_lfs_objects check_sandbox_lfs_objects ◌>>=◌ run return
  verified head h = simp fine.answers

  checked_out :
      (is_new : Bool) (head : Bytes) (h : History) → (reset_to_local_head w is_new head h).0 ≡ none
  unfolding reset_to_local_head ◌>>=◌ ◌>>◌ run send on_error return exit_error
  checked_out true head h = simp (fine.answers, verified)
  checked_out false head h = simp (fine.answers, verified)

  applied_one :
      (command contents : Bytes) (h : History) → (apply_unless_empty w command contents h).0 ≡ none
  unfolding apply_unless_empty apply_patch_to_sandbox in_markers ◌>>=◌ ◌>>◌ run send on_empty return
      apply_error
  applied_one command [] h = refl
  applied_one command (c ∷ contents) h = simp fine.answers

  applied : (h : History) → (apply_dirty_patches_to_sandbox w p h).0 ≡ none
  unfolding apply_dirty_patches_to_sandbox ◌>>=◌ on_error
  applied h = simp applied_one

  removed_paths : (paths : List Bytes) (h : History) → (remove_paths w paths h).0 ≡ none
  unfolding remove_paths in_markers ◌>>=◌ ◌>>◌ run send on_empty return exit_error
  removed_paths [] h = refl
  removed_paths (path ∷ paths) h = simp fine.answers

  removed : (h : History) → (remove_pre_applied_new_files w p h).0 ≡ none
  unfolding remove_pre_applied_new_files
  removed h = removed_paths (new_file_paths_for_dirty_patches p) h

  snapshot :
      (is_new : Bool) (paths : List Bytes) (h : History)
      → (snapshot_sandbox_sync_ref w is_new paths h).0 ≡ none
  unfolding snapshot_sandbox_sync_ref in_markers ◌>>=◌ ◌>>◌ run send return exit_error
  snapshot is_new paths h = simp fine.answers

  sent :
      (is_new : Bool) (h : History)
      → (send_patches w is_new p h).0
        ≡ record { patch_bytes = size p; lfs_skipped_count = 0; error = none }
  unfolding send_patches ◌>>=◌ on_error return
  sent is_new h = simp (fine.no_lfs_changes, removed, applied, snapshot)

  pushed :
      (is_new : Bool) (head : Bytes) (conn : Option SandboxConnectionInfo) (h : History)
      → (push_changes w is_new head conn h).0
        ≡ record { patch_bytes = size p; lfs_skipped_count = 0; error = none }
  unfolding push_changes ◌>>=◌ on_error on_result dirty_patches
  pushed is_new head conn h = simp (ensured, checked_out, fine.patches, sent)

  -- Where the local head can be resolved, every remote command ends with exit code 0, the patches can be
  -- generated and no LFS file has changed, the push succeeds and returns the size of the patches.
  pub sync_local_changes_to_sandbox-NothingFails :
      (is_new : Bool) (conn : Option SandboxConnectionInfo) (h : History) (c : ℕ) (head : Bytes)
      → w.head_commit ≡ ok (c ∷ head)
      → (sync_local_changes_to_sandbox w is_new conn h).0 ≡ (size p, none)
  unfolding sync_local_changes_to_sandbox ◌>>=◌ ◌>>◌ on_result on_empty log return
  sync_local_changes_to_sandbox-NothingFails is_new conn h c head e = simp (e, pushed)
