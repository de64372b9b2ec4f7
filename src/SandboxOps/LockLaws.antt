-- ===== src/SandboxOps/LockLaws.antt =====
-- Every operation releases the lock that it takes.
use rwx.Prelude.{ℕ, zero, suc, Bool, true, Option, Bytes}
use rwx.Prelude.Leads.{Leads}
use rwx.Sandbox.Storage.{SandboxSession, SandboxStorage}
use rwx.SandboxOps.World.{ConnectionInfo, Op, OpFailure, Outside}
use rwx.SandboxOps.Locks.{LockState, LockIn, Released, Locked}
use rwx.SandboxOps.LockRules.{lock_rules}
use rwx.SandboxOps.Waiting.{
  sandbox_completed_error, judge, ready_loop, wait_for_sandbox_ready, completion_loop,
  wait_for_sandbox_completion,
}
use rwx.Prelude.Result.{Result}
use rwx.SandboxOps.Check.{
  CheckExistingSandboxResult, find_session, check_session, check_existing_sandbox,
}

module _ (fits : LockState → Bool) (o : Outside) (run_id token : Bytes) where
  sandbox_completed_error-Leads :
      (info : ConnectionInfo)
      → Leads (LockIn fits) (LockIn fits) (sandbox_completed_error run_id info)
  unfolding sandbox_completed_error
  sandbox_completed_error-Leads info = search lock_rules

  judge-Leads :
      (info : ConnectionInfo) → Leads (LockIn fits) (LockIn fits) (judge o run_id token info)
  unfolding judge
  judge-Leads info = search (lock_rules, sandbox_completed_error-Leads) depth 14

  ready_loop-Leads :
      (fuel : ℕ) (info : ConnectionInfo)
      → Leads (LockIn fits) (LockIn fits) (ready_loop o run_id token fuel info)
  unfolding ready_loop
  ready_loop-Leads zero info = search lock_rules
  ready_loop-Leads (suc fuel) info =
      search (lock_rules, judge-Leads, ready_loop-Leads fuel) depth 14 fits 4000

  pub wait_for_sandbox_ready-Leads :
      (fuel : ℕ) → Leads (LockIn fits) (LockIn fits) (wait_for_sandbox_ready o run_id token fuel)
  unfolding wait_for_sandbox_ready
  wait_for_sandbox_ready-Leads fuel =
      search (lock_rules, judge-Leads, ready_loop-Leads) depth 14 fits 4000

  completion_loop-Leads :
      (fuel deadline : ℕ)
      → Leads (LockIn fits) (LockIn fits) (completion_loop o run_id token fuel deadline)
  unfolding completion_loop
  completion_loop-Leads zero deadline = search lock_rules
  completion_loop-Leads (suc fuel) deadline =
      search (lock_rules, completion_loop-Leads fuel) depth 14 fits 4000

  pub wait_for_sandbox_completion-Leads :
      Leads (LockIn fits) (LockIn fits) (wait_for_sandbox_completion o run_id token)
  unfolding wait_for_sandbox_completion
  wait_for_sandbox_completion-Leads = search (lock_rules, completion_loop-Leads)

module _ (o : Outside) where
  find_session-Leads :
      (storage : SandboxStorage) (config_file : Bytes)
      (rest : Option SandboxSession → Op (Result OpFailure CheckExistingSandboxResult))
      → ((s : Option SandboxSession) → Leads (Locked true) Released (rest s))
      → Leads (Locked true) Released (find_session o storage config_file rest)
  unfolding find_session
  find_session-Leads storage config_file rest f = search (lock_rules, f) depth 14 fits 4000

  check_session-Leads : (s : SandboxSession) → Leads Released Released (check_session o s)
  unfolding check_session
  check_session-Leads s = search lock_rules

  pub check_existing_sandbox-Leads :
      (config_file : Bytes) → Leads Released Released (check_existing_sandbox o config_file)
  unfolding check_existing_sandbox
  check_existing_sandbox-Leads config_file =
      search (lock_rules, find_session-Leads, check_session-Leads) depth 14 fits 4000
