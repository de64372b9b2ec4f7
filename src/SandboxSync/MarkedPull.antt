-- ===== src/SandboxSync/MarkedPull.antt =====
-- The markers around the commands of `pullChangesFromSandbox`.
use rwx.Prelude.{false, Option, some, List, [], ◌∷◌, Bytes, ◌≡◌, refl}
use rwx.SandboxSync.Session.{apply_patch, apply_patch_reject, History, World}
use rwx.Prelude.Leads.{Leads}
use rwx.SandboxSync.Markers.{next_mark, marks, Closed, Opened, marks-step, marked_rules}
use rwx.SandboxSync.MarkedSync.{run-output, log_warn-Leads}
use rwx.SandboxSync.Pull.{
  intend_to_add, undo_intent, read_changes, save_rejected_patch, find_rej_files, attempt,
  attempt_reject, forget_saved, apply_locally, apply_unless_blank, pull_changes_from_sandbox,
}

module _ (w : World) where
  attempt-Leads : (contents : Bytes) → Leads Closed Closed (attempt w contents)
  unfolding attempt next_mark
  attempt-Leads contents = record {
    at = λ h p. record { marks_are = marks-step (apply_patch contents) h refl p.marks_are };
  }

  attempt_reject-Leads : (contents : Bytes) → Leads Closed Closed (attempt_reject w contents)
  unfolding attempt_reject next_mark
  attempt_reject-Leads contents = record {
    at = λ h p. record { marks_are = marks-step (apply_patch_reject contents) h refl p.marks_are };
  }

  find_rej_files-Leads :
      (cwd : Bytes) (files : List Bytes) → Leads Closed Closed (find_rej_files w cwd files)
  unfolding find_rej_files
  find_rej_files-Leads cwd [] = record { at = λ h p. p }
  find_rej_files-Leads cwd (file ∷ files) = record { at = λ h p. p }

ruleset pull_rules = (
  marked_rules, run-output, log_warn-Leads, attempt-Leads, attempt_reject-Leads,
  find_rej_files-Leads,
)

forget_saved-Leads : (saved : Option Bytes) → Leads Closed Closed (forget_saved saved)
unfolding forget_saved
forget_saved-Leads saved = search pull_rules

module _ (w : World) where
  intend_to_add-Leads : (files : List Bytes) → Leads Opened Opened (intend_to_add w files)
  unfolding intend_to_add
  intend_to_add-Leads files = search pull_rules

  undo_intent-Leads : (files : List Bytes) → Leads Opened Opened (undo_intent w files)
  unfolding undo_intent
  undo_intent-Leads files = search pull_rules depth 14

  read_changes-Leads : Leads Closed Closed (read_changes w)
  unfolding read_changes
  read_changes-Leads =
      search (pull_rules, intend_to_add-Leads, undo_intent-Leads) depth 14 fits 4000

  save_rejected_patch-Leads :
      (contents : Bytes) → Leads Closed Closed (save_rejected_patch w contents)
  unfolding save_rejected_patch
  save_rejected_patch-Leads contents = search pull_rules depth 14 fits 4000

  apply_locally-Leads :
      (cwd : Bytes) (files : List Bytes) (contents : Bytes)
      → Leads Closed Closed (apply_locally w cwd files contents)
  unfolding apply_locally
  apply_locally-Leads cwd files contents =
      search (pull_rules, save_rejected_patch-Leads, forget_saved-Leads) depth 14 fits 4000

  apply_unless_blank-Leads :
      (cwd : Bytes) (files : List Bytes) (contents : Bytes)
      → Leads Closed Closed (apply_unless_blank w cwd files contents)
  unfolding apply_unless_blank
  apply_unless_blank-Leads cwd files contents = search (pull_rules, apply_locally-Leads)

  pull-Leads : (cwd : Bytes) → Leads Closed Closed (pull_changes_from_sandbox w cwd)
  unfolding pull_changes_from_sandbox
  pull-Leads cwd =
      search (pull_rules, read_changes-Leads, apply_unless_blank-Leads) depth 14 fits 4000

  -- On every path of a pull, whatever fails, each start marker has its end marker, the two alternate, and
  -- every other remote command stands between them.
  pub pull_changes_from_sandbox-marks :
      (cwd : Bytes) (h : History)
      → marks h ≡ some false
      → marks (pull_changes_from_sandbox w cwd h).1 ≡ some false
  pull_changes_from_sandbox-marks cwd h e =
      ((pull-Leads cwd).at h (record { marks_are = e })).marks_are
