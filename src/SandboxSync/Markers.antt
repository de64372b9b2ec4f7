-- ===== src/SandboxSync/Markers.antt =====
-- Every remote command of a synchronisation stands between the markers that keep it out of the logs.
use rwx.Prelude.{
  Bool, true, false, Option, none, some, List, [], ◌∷◌, ◌==◌, bytes_eq, bytes_beq, Bytes,
  if◌then◌else◌, ◌≡◌, refl, ap, ◌∙◌, nat_eq,
}
use rwx.Prelude.Result.{Result, ok, err}
use rwx.Errors.{GoError}
use rwx.SandboxSync.Shell.{sandbox_worktree_root_command}
use rwx.Prelude.Traced.{◌>>◌, log}
use rwx.SandboxSync.Session.{
  PushRefOptions, SyncEvent, execute_command, execute_with_output, execute_with_stdin, push_ref,
  create_temp, remove, write_path, History, World, Session, send, run, sync_start, sync_end,
}
use rwx.Prelude.Leads.{Leads, Leads-change, Leads-then, Leads-return, leads_rules}
use rwx.SandboxSync.Push.{
  SandboxConnectionInfo, sandbox_has_commit, push, create_file, close_file, write, temp_file,
  sandbox_git_push_options, remove_all, push_marked, push_local_head_to_sandbox, find_commit,
  ensure_sandbox_has_commit,
}

-- A remote command that is not a marker must stand between them.
unfoldable pub inside : Bool → Option Bool
inside started = if started then some true else none

-- Whether the markers are open behind an event; `none` once something stands where it must not.
unfoldable pub next_mark : Bool → SyncEvent → Option Bool
unfolding inside bytes_beq
next_mark started (execute_command c) =
    if c == sync_start
    then if started then none else some true
    else if c == sync_end
    then if started then some false else none
    else inside started
next_mark started (execute_with_output c) = inside started
next_mark started (execute_with_stdin c s) = inside started
next_mark started (push_ref o) = inside started
next_mark started _ = some started

unfoldable pub marks : History → Option Bool
unfolding next_mark
marks [] = some false
marks (e ∷ h) = elim (marks h) [ none ↦ none | some started ↦ next_mark started e ]

-- The markers are open or not, and nothing stands where it must not.
pub record Marked (started : Bool) (h : History) : Type 0 where
  pub marks_are : marks h ≡ some started

abbrev pub Closed : History → Type 0
Closed = Marked false

abbrev pub Opened : History → Type 0
Opened = Marked true

pub marks-step :
    {a b : Bool} (e : SyncEvent) (h : History)
    → next_mark a e ≡ some b
    → marks h ≡ some a
    → marks (e ∷ h) ≡ some b
unfolding marks
marks-step {a = a} e h n k =
    ap (λ m. elim m as (λ _. Option Bool) [ none ↦ none | some started ↦ next_mark started e ]) k
    ∙ n

command-IsInside :
    (c : Bytes) → next_mark true (execute_command (sandbox_worktree_root_command c)) ≡ some true
unfolding next_mark bytes_beq sandbox_worktree_root_command inside
command-IsInside c = refl

send-start : Leads Closed Opened (send sync_start)
unfolding send next_mark bytes_beq
send-start = record {
  at = λ h p. record { marks_are = marks-step (execute_command sync_start) h refl p.marks_are };
}

send-end : Leads Opened Closed (send sync_end)
unfolding send next_mark bytes_beq
send-end = record {
  at = λ h p. record { marks_are = marks-step (execute_command sync_end) h refl p.marks_are };
}

pub start-then {ℓ} :
    {V : Type ℓ} (R : History → Type 0) (m : Session V)
    → Leads Opened R m
    → Leads Closed R (send sync_start >> m)
start-then R m f = Leads-change Closed Opened R (send sync_start) m send-start f

pub end-then {ℓ} :
    {V : Type ℓ} (R : History → Type 0) (m : Session V)
    → Leads Closed R m
    → Leads Opened R (send sync_end >> m)
end-then R m f = Leads-change Opened Closed R (send sync_end) m send-end f

pub send-command : (c : Bytes) → Leads Opened Opened (send (sandbox_worktree_root_command c))
unfolding send
send-command c = record {
  at = λ h p. record {
    marks_are =
        marks-step (execute_command (sandbox_worktree_root_command c)) h (command-IsInside c)
          p.marks_are;
  };
}

module _ (w : World) where
  pub run-command :
      (c : Bytes) → Leads Opened Opened (run w (execute_command (sandbox_worktree_root_command c)))
  unfolding run
  run-command c = record {
    at = λ h p. record {
      marks_are =
          marks-step (execute_command (sandbox_worktree_root_command c)) h (command-IsInside c)
            p.marks_are;
    };
  }

  pub push-Leads : (o : PushRefOptions) → Leads Opened Opened (push w o)
  unfolding push next_mark inside
  push-Leads o = record {
    at = λ h p. record { marks_are = marks-step (push_ref o) h refl p.marks_are };
  }

  module _ (b : Bool) where
    pub create_file-Leads : Leads (Marked b) (Marked b) (create_file w)
    unfolding create_file next_mark
    create_file-Leads = record {
      at = λ h p. record {
        marks_are =
            elim (w.create_temp h)
              as (λ r.
                marks (
                  (elim r as (λ _. Result GoError Bytes × History) [
                    | err e ↦ (err e, h)
                    | ok path ↦ (ok path, create_temp path ∷ h)
                  ]).1)
                ≡ some b) [
                  | err e ↦ p.marks_are
                  | ok path ↦ marks-step (create_temp path) h refl p.marks_are
                ];
      };
    }

    pub close_file-Leads : Leads (Marked b) (Marked b) (close_file w)
    unfolding close_file
    close_file-Leads = record { at = λ h p. p }

    pub write-Leads : (path contents : Bytes) → Leads (Marked b) (Marked b) (write w path contents)
    unfolding write next_mark
    write-Leads path contents = record {
      at = λ h p. record { marks_are = marks-step (write_path path contents) h refl p.marks_are };
    }

module _ (b : Bool) where
  pub log_remove-Leads : (path : Bytes) → Leads (Marked b) (Marked b) (log (remove path))
  unfolding log next_mark
  log_remove-Leads path = record {
    at = λ h p. record { marks_are = marks-step (remove path) h refl p.marks_are };
  }

pub ruleset marked_rules = (
  leads_rules, start-then, end-then, send-command, run-command, push-Leads, create_file-Leads,
  close_file-Leads, write-Leads, log_remove-Leads,
)

remove_all-Leads : (paths : List Bytes) → Leads Closed Closed (remove_all paths)
unfolding remove_all
remove_all-Leads [] = Leads-return Closed tt
remove_all-Leads (path ∷ paths) =
    Leads-then Closed Closed (log (remove path)) (remove_all paths) (log_remove-Leads false path)
      (remove_all-Leads paths)

module _ (w : World) where
  sandbox_has_commit-Leads : (sha : Bytes) → Leads Opened Opened (sandbox_has_commit w sha)
  unfolding sandbox_has_commit
  sandbox_has_commit-Leads sha = search marked_rules

  find_commit-Leads : (head : Bytes) → Leads Opened Opened (find_commit w head)
  unfolding find_commit
  find_commit-Leads head = search (marked_rules, sandbox_has_commit-Leads) depth 14 fits 4000

  temp_file-Leads :
      (b : Bool) (contents : Bytes) → Leads (Marked b) (Marked b) (temp_file w contents)
  unfolding temp_file
  temp_file-Leads b contents = search (marked_rules) depth 14 fits 4000

  sandbox_git_push_options-Leads :
      (head : Bytes) (conn : SandboxConnectionInfo)
      → Leads Closed Closed (sandbox_git_push_options w head conn)
  unfolding sandbox_git_push_options
  sandbox_git_push_options-Leads head conn =
      search (marked_rules, temp_file-Leads) depth 14 fits 4000

  push_marked-Leads :
      (head : Bytes) (o : PushRefOptions) → Leads Closed Closed (push_marked w head o)
  unfolding push_marked
  push_marked-Leads head o = search (marked_rules, sandbox_has_commit-Leads) depth 14 fits 4000

  push_local_head_to_sandbox-Leads :
      (head : Bytes) (conn : Option SandboxConnectionInfo)
      → Leads Closed Closed (push_local_head_to_sandbox w head conn)
  unfolding push_local_head_to_sandbox
  push_local_head_to_sandbox-Leads head none = search marked_rules
  push_local_head_to_sandbox-Leads head (some conn) =
      search (marked_rules, sandbox_git_push_options-Leads, push_marked-Leads, remove_all-Leads)
        depth 14 fits 4000

  pub ensure_sandbox_has_commit-Leads :
      (head : Bytes) (conn : Option SandboxConnectionInfo)
      → Leads Closed Closed (ensure_sandbox_has_commit w head conn)
  unfolding ensure_sandbox_has_commit
  ensure_sandbox_has_commit-Leads head conn =
      search (marked_rules, find_commit-Leads, push_local_head_to_sandbox-Leads) depth 14 fits 4000
