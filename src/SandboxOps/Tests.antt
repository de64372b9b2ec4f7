-- ===== src/SandboxOps/Tests.antt =====
-- Runs of the operations on stored sandboxes.
use rwx.Prelude.{
  ℕ, ◌+◌, ◌≤◌, true, false, none, some, [], ◌∷◌, bytes_eq, Bytes, codes, AnyOf, map, if◌then◌else◌,
  ◌⊎◌, inl, inr, ◌≡◌, refl, arith,
}
use rwx.Prelude.Dict.{get}
use rwx.Prelude.FilePath.{is_abs}
use rwx.Errors.{new_error}
use rwx.Prelude.Result.{ok, err}
use rwx.Sandbox.Key.{relative_config}
use rwx.Sandbox.Storage.{SandboxSession, SandboxStorage}
use rwx.SandboxOps.World.{
  RunSummary, OpEvent, slept, recorded, panics, Past, Outside, attempt_lock,
  lock_sandbox_storage_with_info, load_sessions, getwd,
}
use rwx.SandboxOps.Locks.{next_state, lock_state, free, held, Released}
use rwx.SandboxOps.Waiting.{wait_for_sandbox_completion}
use rwx.SandboxOps.WaitLaws.{wait_for_sandbox_completion-ends}
use rwx.SandboxOps.Stop.{stop_selected}
use rwx.SandboxOps.Listing.{info_of, list_merged, list_sandboxes}
use rwx.SandboxOps.Start.{outcome, start_sandbox}
use rwx.SandboxOps.Reset.{stop_old, start_again, reset_sandbox}
use rwx.Prelude.Traced.{◌>>=◌, ◌>>◌, on_error, on_result, log, return}
use rwx.SandboxOps.StopLaws.{Saves, has_key, stop_selected-Saves}
use rwx.SandboxOps.ListLaws.{is_foreign, list_merged-reported, list_sandboxes-foreign}

-- The time slept.
elapsed : Past → ℕ
elapsed [] = 0
elapsed (slept ms ∷ h) = elapsed h + ms
elapsed (_ ∷ h) = elapsed h

elapsed-monotone : (h : Past) (e : OpEvent) → elapsed h ≤ elapsed (e ∷ h)
unfolding elapsed
elapsed-monotone h (slept ms) = omega arith
elapsed-monotone h _ = omega arith

elapsed-slept : (h : Past) (ms : ℕ) → elapsed h + ms ≤ elapsed (slept ms ∷ h)
unfolding elapsed
elapsed-slept h ms = omega arith

abbrev session : SandboxSession
session = record {
  run_id = codes "run-1";
  config_file = codes "/a.yml";
  scoped_token = [];
  run_url = [];
  config_hash = [];
  created_at = none;
  last_exec_at = none;
  exec_count = 0;
  reset_nag_shown = false;
}

abbrev stored : SandboxStorage
stored = record {
  version = 1;
  sandboxes = (codes "main:/a.yml", session) ∷ [];
  changed = false;
  migrated = false;
}

abbrev known_run : RunSummary
known_run = record {
  id = codes "run-1";
  run_url = [];
  cli_state = some (codes "main", codes "/a.yml");
}

abbrev windows_run : RunSummary
windows_run = record {
  id = codes "run-2";
  run_url = [];
  cli_state = some (codes "main", codes "C:\\a.yml");
}

-- A run that never ends, and is told so over the API alone.
abbrev outside : Outside
outside = record {
  try_lock = λ h. none;
  lock = λ h. none;
  load = λ h. ok stored;
  save = λ h s. none;
  connection_info = λ h r t. ok (record {
    sandboxable = true;
    completed = true;
    backoff_ms = some 1000;
    failure_reason = [];
  });
  connect = λ h. some (new_error (codes "refused"));
  cancel = λ h r. none;
  close_tunnels = λ h r. none;
  runs = λ h. ok (known_run ∷ windows_run ∷ []);
  create_token = λ h r. ok (codes "token");
  initiate = λ h c. ok (codes "run-3", []);
  is_ancestor = λ a b. false;
  branch_name = codes "main";
  short_head = [];
  config_hash = λ c. [];
  clock = elapsed;
  no_directory = λ h. none;
}

abbrev lost_directory : Outside
lost_directory = record outside {
  load = λ h. err (new_error (codes "unreadable"));
  no_directory = λ h. some (new_error (codes "gone"));
}

abbrev fresh : Released []
unfolding lock_state
fresh = record { state = free; state_is = refl; state_fits = refl }

wait_for_sandbox_completion-ends_example :
    (wait_for_sandbox_completion outside (codes "run-1") [] []).0 ≡ true
wait_for_sandbox_completion-ends_example =
    wait_for_sandbox_completion-ends outside (codes "run-1") []
      (record { monotone = elapsed-monotone; sleeps = elapsed-slept }) []

stop_selected-Saves_example :
    (map (λ stopped. stopped.run_id) (stop_selected outside stored stored.sandboxes []).0
      ≡ codes "run-1" ∷ [])
    × ((t : SandboxStorage) × Saves outside t (stop_selected outside stored stored.sandboxes []).1
        × ((key : Bytes)
            → get t.sandboxes key
              ≡ (if has_key key stored.sandboxes then none else get stored.sandboxes key)))
stop_selected-Saves_example = stop_selected-Saves outside stored stored.sandboxes []

list_merged-reported_example :
    AnyOf
      (λ i. i ≡ info_of (codes "main:/a.yml") session)
      (list_merged outside [] (stored, false) []).0
    ⊎ ((t : SandboxStorage) × (past : Past) × Saves outside t past
        × (get t.sandboxes (codes "main:/a.yml") ≡ none)
        × ((list_merged outside [] (stored, false) []).1 ≡ recorded (codes "sandbox.list") ∷ past))
list_merged-reported_example =
    list_merged-reported outside [] stored false [] (codes "main:/a.yml") session (inl refl)

-- The first run of the list is merged, the second ends the listing.
list_sandboxes-foreign_example : (list_sandboxes outside []).0 ≡ err (panics relative_config)
unfolding is_abs lock_sandbox_storage_with_info attempt_lock
list_sandboxes-foreign_example =
    list_sandboxes-foreign outside [] stored (known_run ∷ windows_run ∷ []) refl refl refl
      (inr (inl (is_foreign (codes "main") b'C' (codes ":\\a.yml") refl refl)))

-- A reset whose working directory is gone keeps the lock.
reset_keeps : lock_state (reset_sandbox lost_directory 1 (codes "/a.yml") false []).1 ≡ some held
unfolding lock_state next_state reset_sandbox lock_sandbox_storage_with_info attempt_lock ◌>>=◌ ◌>>◌
    on_error on_result log return stop_old load_sessions start_again start_sandbox getwd outcome
reset_keeps = refl
