-- ===== src/SandboxSync/Push.antt =====
-- internal/cli/service_sandbox.go: how the sandbox gets the commit of the working copy.
use rwx.Prelude.{
  ℕ, Bool, true, false, Option, none, some, List, [], ◌∷◌, ◌++◌, ◌==◌, nat_eq, Bytes, codes,
  contains, to_lower, trim_space, if◌then◌else◌,
}
use rwx.Prelude.Decimal.{decimal}
use rwx.Prelude.Result.{Result, ok, err}
use rwx.Errors.{
  new_error, Target, GoError, wrap, mark, is, error, sentinel_error, shallow_clone,
  sandbox_no_git_dir, patch,
}
use rwx.SandboxSync.Shell.{quote_shell_arg, sandbox_worktree_root_command}
use rwx.Prelude.Traced.{◌>>=◌, ◌>>◌, return, on_error, on_result, log}
use rwx.SandboxSync.Session.{
  PushRefOptions, execute_command, push_ref, create_temp, remove, write_path, World, Session, send,
  run, sync_start, sync_end,
}

-- What the API says about how to reach a sandbox, as far as a push needs it.
pub record SandboxConnectionInfo : Type 0 where
  pub address : Bytes
  pub private_user_key : Bytes
  pub public_host_key : Bytes

-- strings.Contains(strings.ToLower(err.Error()), ...); `none` is nil.
unfoldable pub is_shallow_update_rejection : Option GoError → Bool
unfolding contains to_lower error
is_shallow_update_rejection none = false
is_shallow_update_rejection (some e) =
    contains (to_lower (error e)) (codes "shallow update not allowed")

unfoldable pub sandbox_sync_failure_reason : Option GoError → Bytes
unfolding is
sandbox_sync_failure_reason none = []
sandbox_sync_failure_reason (some e) =
    if is e (Target.sentinel shallow_clone)
    then codes "shallow_clone"
    else if is e (Target.sentinel sandbox_no_git_dir)
    then codes "no_git_dir"
    else if is e (Target.sentinel patch)
    then codes "patch"
    else codes "other"

unfoldable pub sandbox_shallow_sync_message : Bytes
sandbox_shallow_sync_message =
    codes
      "your local clone is shallow and its history has diverged from the sandbox, so git refused the sync push (shallow update not allowed).\n\nTo recover, either:\n  - Unshallow your local clone, then re-run your command:\n      git fetch --unshallow\n  - Set 'fetch-full-depth: true' on the git/clone task in your sandbox config, then re-provision the sandbox:\n      rwx sandbox exec --reset"

abbrev pub has_commit_command : Bytes → Bytes
has_commit_command sha =
    codes "/usr/bin/git cat-file -e " ++ quote_shell_arg sha ++ codes "^{commit} >/dev/null 2>&1"

abbrev pub fetch_command : Bytes
fetch_command =
    codes "/usr/bin/git fetch --prune origin '+refs/heads/*:refs/remotes/origin/*' >/dev/null 2>&1"

abbrev pub is_success : Result GoError (ℕ × Bytes) → Bool
is_success (err e) = false
is_success (ok (code, _)) = code == 0

unfoldable pub remove_all : List Bytes → Session (Unit {0})
remove_all [] = return tt
remove_all (path ∷ paths) = do log (remove path); remove_all paths

module _ (w : World) where
  unfoldable pub sandbox_has_commit : Bytes → Session Bool
  sandbox_has_commit sha = do
    answer ← run w (execute_command (sandbox_worktree_root_command (has_commit_command sha)))
    return (is_success answer)

  unfoldable pub create_file : Session (Result GoError Bytes)
  create_file h = elim (w.create_temp h) [
    | err e ↦ (err e, h)
    | ok path ↦ (ok path, create_temp path ∷ h)
  ]

  unfoldable pub close_file : Session (Option GoError)
  close_file h = (w.close_temp h, h)

  unfoldable pub write : Bytes → Bytes → Session (Option GoError)
  write path contents h = (w.write_file h, write_path path contents ∷ h)

  -- A temporary file with these contents: its name or an error, and the files left to remove.
  unfoldable pub temp_file : Bytes → Session (Result GoError Bytes × List Bytes)
  temp_file contents = do
    created ← create_file
    on_result created (λ e. return (err e, []))
        (λ path. do
          closed ← close_file
          on_error closed (λ e. return (err e, path ∷ []))
              (do
                failed ← write path contents
                on_error failed (λ e. return (err e, path ∷ [])) (return (ok path, path ∷ []))))

  abbrev host_alias : Bytes
  host_alias = codes "rwx-sandbox-" ++ decimal w.pid ++ codes "-" ++ decimal w.nanos

  unfoldable pub ssh_command : Bytes → Bytes → Bytes → Bytes → Bytes
  ssh_command host port key_path known_hosts_path = w.quote_command (
      codes "ssh"
      ∷ codes "-F"
      ∷ codes "/dev/null"
      ∷ codes "-i"
      ∷ key_path
      ∷ codes "-o"
      ∷ codes "BatchMode=yes"
      ∷ codes "-o"
      ∷ codes "IdentitiesOnly=yes"
      ∷ codes "-o"
      ∷ codes "StrictHostKeyChecking=yes"
      ∷ codes "-o"
      ∷ (codes "UserKnownHostsFile=" ++ known_hosts_path)
      ∷ codes "-o"
      ∷ (codes "HostKeyAlias=" ++ host_alias)
      ∷ codes "-o"
      ∷ (codes "HostName=" ++ host)
      ∷ codes "-p"
      ∷ port
      ∷ [])

  unfoldable pub push_options : Bytes → Bytes → Bytes → Bytes → Bytes → PushRefOptions
  push_options local_head host port key_path known_hosts_path = record {
    remote = codes "rwx-cli@" ++ host_alias ++ codes ":.";
    refspec = codes "+" ++ local_head ++ codes ":refs/rwx/sync-push";
    env =
        (codes "GIT_SSH_COMMAND=" ++ ssh_command host port key_path known_hosts_path)
        ∷ codes "GIT_LFS_SKIP_PUSH=1"
        ∷ [];
  }

  unfoldable pub known_hosts_line : SandboxConnectionInfo → Bytes
  known_hosts_line conn = host_alias ++ codes " " ++ trim_space conn.public_host_key ++ codes "\n"

  -- The options, and the files that the cleanup removes.
  unfoldable pub sandbox_git_push_options :
      Bytes → SandboxConnectionInfo → Session (Result GoError PushRefOptions × List Bytes)
  sandbox_git_push_options local_head conn =
      on_result (w.split_host_port conn.address)
        (λ e. return (err (wrap (codes "unable to parse sandbox SSH address") e), []))
        (λ at. do
          key ← temp_file conn.private_user_key
          on_result key.0 (λ e. return (err e, key.1))
              (λ key_path. do
                known_hosts ← temp_file (known_hosts_line conn)
                return (
                  elim known_hosts.0 [
                    | err e ↦ err e
                    | ok known_hosts_path ↦
                        ok (push_options local_head at.0 at.1 key_path known_hosts_path)
                  ],
                  key.1 ++ known_hosts.1,
                )))

  unfoldable pub push : PushRefOptions → Session (Option GoError)
  push options h = (w.push h options, push_ref options ∷ h)

  -- The push between its markers.
  unfoldable pub push_marked : Bytes → PushRefOptions → Session (Option GoError)
  push_marked local_head options = do
    send sync_start
    push_err ← push options
    has_commit ← on_error push_err (λ e. return false) (sandbox_has_commit local_head)
    send sync_end
    return (elim push_err [
      | some e ↦ some (
          if is_shallow_update_rejection (some e)
          then mark (new_error sandbox_shallow_sync_message) shallow_clone
          else wrap (codes "failed to push git commits to sandbox") e)
      | none ↦
          if has_commit
          then none
          else some (
              new_error (
                codes "sandbox still does not contain local commit "
                ++ local_head
                ++ codes " after git push"))
    ])

  unfoldable pub push_local_head_to_sandbox :
      Bytes → Option SandboxConnectionInfo → Session (Option GoError)
  push_local_head_to_sandbox local_head none =
      return (some (new_error (codes "sandbox connection info is required to push local commits")))
  push_local_head_to_sandbox local_head (some conn) = do
    options ← sandbox_git_push_options local_head conn
    failed ← on_result options.0 (λ e. return (some e)) (λ o. push_marked local_head o)
    remove_all options.1
    return failed

  -- Whether the sandbox has the commit, after a fetch if need be.
  unfoldable pub find_commit : Bytes → Session Bool
  find_commit local_head = do
    has_commit ← sandbox_has_commit local_head
    if has_commit
        then return true
        else do send (sandbox_worktree_root_command fetch_command); sandbox_has_commit local_head

  unfoldable pub ensure_sandbox_has_commit :
      Bytes → Option SandboxConnectionInfo → Session (Option GoError)
  ensure_sandbox_has_commit local_head conn = do
    send sync_start
    answer ←
        run w
          (execute_command (sandbox_worktree_root_command (codes "test -d .git || test -f .git")))
    on_result answer
        (λ e. do
          send sync_end
          return (some (wrap (codes "failed to check sandbox git directory") e)))
        (λ done.
          if done.0 == 0
          then (do
            has_commit ← find_commit local_head
            send sync_end
            if has_commit then return none else push_local_head_to_sandbox local_head conn)
          else (do send sync_end; return (some (sentinel_error sandbox_no_git_dir))))
