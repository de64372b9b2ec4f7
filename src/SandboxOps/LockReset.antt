-- ===== src/SandboxOps/LockReset.antt =====
-- `ResetSandbox` keeps the lock that it passes on, and every operation releases its own.
use rwx.Prelude.{Bool, false, Bytes}
use rwx.Prelude.Leads.{Leads}
use rwx.SandboxOps.Start.{StartSandboxConfig}

-- The configuration of a caller that does not hold the lock.
abbrev pub unlocked_config : Bytes → Bytes → Bool → StartSandboxConfig
unlocked_config config_file run_id wait = record {
  config_file = config_file;
  run_id = run_id;
  wait = wait;
  storage_lock = false;
}
