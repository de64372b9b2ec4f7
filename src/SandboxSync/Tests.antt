-- ===== src/SandboxSync/Tests.antt =====
-- Runs of the synchronisation with a sandbox.
use rwx.Prelude.{
  ℕ, true, false, none, some, List, [], ◌∷◌, ◌++◌, nat_eq, Bytes, bytes_beq, codes, has_prefix,
  has_byte, ◌≡◌, refl,
}
use rwx.Prelude.Result.{ok}
use rwx.Errors.{new_error}
use rwx.SandboxSync.Shell.{quote_all, sandbox_worktree_root_command}
use rwx.SandboxSync.Reader.{
  shell_words, shell_words-quote_all, shell_words-sandbox_worktree_root_command,
}
use rwx.SandboxSync.Patches.{DirtyPatches, size, parse_patch_files, parse_new_file_paths}
use rwx.SandboxSync.PatchLaws.{FileDiff, print_patch, parse_patch_files-print_patch}
use rwx.SandboxSync.Session.{World}
use rwx.SandboxSync.Push.{SandboxConnectionInfo, push_local_head_to_sandbox}
use rwx.SandboxSync.Sync.{lfs_changes, sync_local_changes_to_sandbox}
use rwx.SandboxSync.Pull.{pull_changes_from_sandbox}
use rwx.SandboxSync.Markers.{marks}
use rwx.SandboxSync.MarkedSync.{sync_local_changes_to_sandbox-marks}
use rwx.SandboxSync.MarkedPull.{pull_changes_from_sandbox-marks}
use rwx.SandboxSync.TempFiles.{leftover, push_local_head_to_sandbox-leftover}
use rwx.SandboxSync.Success.{NothingFails, sync_local_changes_to_sandbox-NothingFails}

abbrev two_paths : List Bytes
two_paths = codes "it's; rm -rf $HOME" ∷ codes "b c" ∷ []

shell_words-quote_all_example : shell_words (quote_all two_paths) ≡ some two_paths
shell_words-quote_all_example = shell_words-quote_all two_paths

shell_words-sandbox_worktree_root_command_example :
    shell_words (sandbox_worktree_root_command (codes "echo 'a'"))
    ≡ some (
        codes "/bin/sh"
        ∷ codes "-lc"
        ∷ (codes
              "repo_root=$(/usr/bin/git rev-parse --show-toplevel) || exit 1; cd \"$repo_root\" || exit 1; "
            ++ codes "echo 'a'")
        ∷ [])
shell_words-sandbox_worktree_root_command_example =
    shell_words-sandbox_worktree_root_command (codes "echo 'a'")

abbrev two_diffs : List FileDiff
two_diffs =
    record { path = codes "main.go"; mode = none; body = codes "-a" ∷ codes "+b" ∷ [] }
    ∷ record { path = codes "new.go"; mode = some (codes "100644"); body = codes "+c" ∷ [] }
    ∷ []

parse_patch_files-print_patch_example :
    (parse_patch_files (print_patch two_diffs) ≡ codes "main.go" ∷ codes "new.go" ∷ [])
    × (parse_new_file_paths (print_patch two_diffs) ≡ codes "new.go" ∷ [])
unfolding has_prefix has_byte bytes_beq
parse_patch_files-print_patch_example =
    parse_patch_files-print_patch two_diffs ((refl, refl, refl), ((refl, refl, refl), tt))

abbrev one_patch : DirtyPatches
one_patch = record {
  staged = codes "staged";
  unstaged = [];
  files = [];
  new_files = codes "a" ∷ [];
  lfs_changed_files = none;
}

-- Every command ends with this exit code.
abbrev world : ℕ → World
world code = record {
  ssh = λ h e. ok (code, []);
  push = λ h o. none;
  head_commit = ok (codes "f00");
  branch = codes "main";
  generate_dirty_patches = λ h. ok one_patch;
  reject_files = [];
  create_temp = λ h. ok (codes "/tmp/key");
  close_temp = λ h. none;
  write_file = λ h. some (new_error (codes "disk full"));
  apply_patch = λ h p. none;
  apply_patch_reject = λ h p. ([], none);
  exists = λ h p. false;
  rwx_directory = none;
  can_make_directory = true;
  split_host_port = λ a. ok (a, codes "22");
  quote_command = λ a. [];
  pid = 1;
  nanos = 2;
}

abbrev conn : SandboxConnectionInfo
conn = record {
  address = codes "host";
  private_user_key = codes "secret";
  public_host_key = codes "key";
}

sync_local_changes_to_sandbox-marks_example :
    marks (sync_local_changes_to_sandbox (world 1) false (some conn) []).1 ≡ some false
unfolding marks
sync_local_changes_to_sandbox-marks_example =
    sync_local_changes_to_sandbox-marks (world 1) false (some conn) [] refl

pull_changes_from_sandbox-marks_example :
    marks (pull_changes_from_sandbox (world 0) (codes "/repo") []).1 ≡ some false
unfolding marks
pull_changes_from_sandbox-marks_example =
    pull_changes_from_sandbox-marks (world 0) (codes "/repo") [] refl

push_local_head_to_sandbox-leftover_example :
    leftover (push_local_head_to_sandbox (world 0) (codes "f00") (some conn) []).1 ≡ []
unfolding leftover
push_local_head_to_sandbox-leftover_example =
    push_local_head_to_sandbox-leftover (world 0) (codes "f00") (some conn) [] refl

abbrev fine : NothingFails (world 0) one_patch
unfolding lfs_changes
fine = record {
  output = λ h e. [];
  answers = λ h e. refl;
  patches = λ h. refl;
  no_lfs_changes = refl;
}

sync_local_changes_to_sandbox-NothingFails_example :
    (sync_local_changes_to_sandbox (world 0) true none []).0 ≡ (6, none)
unfolding size
sync_local_changes_to_sandbox-NothingFails_example =
    sync_local_changes_to_sandbox-NothingFails (world 0) one_patch fine true none [] 102
      (codes "00") refl
