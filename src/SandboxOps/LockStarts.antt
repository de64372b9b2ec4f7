-- ===== src/SandboxOps/LockStarts.antt =====
-- `StartSandbox` and `ResetSandbox` release the lock that they take or are given.
use rwx.Prelude.{ℕ, Bool, true, false, Option, none, some, ◌∷◌, ◌≡◌, refl, Bytes, codes}
use rwx.Errors.{GoError}
use rwx.Prelude.Leads.{
  Leads, Leads-then, Leads-bind, Leads-change, Leads-return, Leads-result, Leads-list,
}
use rwx.Prelude.Traced.{return, log, ◌>>◌, ◌>>=◌, on_error}
use rwx.Sandbox.Key.{Panic}
use rwx.Sandbox.Storage.{SandboxSession, SandboxStorage}
use rwx.SandboxOps.World.{
  recorded, crash, OpFailure, Past, Op, Outside, unlock, initiate_run, getwd,
}
use rwx.SandboxOps.Locks.{
  LockState, LockIn, Released, Locked, is_released, is_locked, log_warned-Leads, log_recorded-Leads,
  now-Leads, initiate_run-Leads,
}
use rwx.SandboxOps.LockRules.{
  lock_rules, lock-then, log_unlocked-then, unlock-then, unlock-Leads, give_up-then, crash-Leads,
}
use rwx.SandboxOps.LockLaws.{wait_for_sandbox_ready-Leads}
use rwx.SandboxOps.Check.{save_sandbox_storage_with_telemetry}
use rwx.SandboxOps.Start.{
  StartSandboxConfig, Started, token_or_empty, store_session, store_reattached, wait_if_asked,
  attached, reattach, store_token, finish_start, store_started, begin_session, start_run,
  start_there, start_sandbox,
}

module _ (o : Outside) where
  pub save-Leads :
      (b : Bool) (s : SandboxStorage) (reason : Bytes) (skip : Bool)
      → Leads (Locked b) (Locked b) (save_sandbox_storage_with_telemetry o s reason skip)
  unfolding save_sandbox_storage_with_telemetry
  save-Leads b s reason skip = search lock_rules depth 14

  token_or_empty-Leads :
      (fits : LockState → Bool) (run_id : Bytes)
      → Leads (LockIn fits) (LockIn fits) (token_or_empty o run_id)
  unfolding token_or_empty
  token_or_empty-Leads fits run_id = search lock_rules depth 14

  store_session-Leads :
      (b : Bool) (config_file : Bytes) (s : SandboxSession) (reason : Bytes)
      (rest : Bool → Op Started)
      → ((loaded : Bool) → Leads (Locked b) Released (rest loaded))
      → Leads (Locked b) Released (store_session o config_file s reason rest)
  unfolding store_session
  store_session-Leads b config_file s reason rest f =
      search (lock_rules, save-Leads, f) depth 14 fits 4000

  store_reattached-Leads :
      (run_id config_file : Bytes) (rest : Op Started)
      → Leads Released Released rest
      → Leads (Locked false) Released rest
      → Leads Released Released (store_reattached o run_id config_file rest)
  unfolding store_reattached
  store_reattached-Leads run_id config_file rest f g =
      Leads-bind Released Released _ _ (token_or_empty-Leads is_released run_id) (λ token.
        lock-then o Released _ _
          (λ e. Leads-then (Locked false) Released _ rest (log_warned-Leads (is_locked false) _) g)
          (store_session-Leads true config_file _ (codes "reattach") _
            (λ loaded. log_unlocked-then Released rest f)))

  wait_if_asked-Leads :
      (fits : LockState → Bool) (fuel : ℕ) (wait : Bool) (run_id token : Bytes)
      → Leads (LockIn fits) (LockIn fits) (wait_if_asked o fuel wait run_id token)
  unfolding wait_if_asked
  wait_if_asked-Leads fits fuel wait run_id token =
      search (lock_rules, wait_for_sandbox_ready-Leads) depth 14 fits 4000

  attached-Leads : (cfg : StartSandboxConfig) → Leads Released Released (attached o cfg)
  unfolding attached
  attached-Leads cfg = search lock_rules depth 14

  attached_without-Leads :
      (cfg : StartSandboxConfig) → Leads (Locked false) Released (attached o cfg)
  unfolding attached
  attached_without-Leads cfg =
      Leads-then (Locked false) Released _ _ (log_recorded-Leads (is_locked false) _)
        (give_up-then _)

  stored_reattached-Leads :
      (cfg : StartSandboxConfig)
      → Leads Released Released (store_reattached o cfg.run_id cfg.config_file (attached o cfg))
  stored_reattached-Leads cfg =
      store_reattached-Leads cfg.run_id cfg.config_file (attached o cfg) (attached-Leads cfg)
        (attached_without-Leads cfg)

  -- what holds of the lock where the caller has it, or has not
  unfoldable pub Before : Bool → Past → Type 0
  Before true = Locked true
  Before false = Released

  release-Leads : (b : Bool) → Leads (Before b) Released (unlock b)
  unfolding Before unlock return
  release-Leads true = unlock-Leads true
  release-Leads false = record { at = λ h p. p }

  release-then {ℓ} :
      {V : Type ℓ} (b : Bool) (m : Op V)
      → Leads Released Released m
      → Leads (Before b) Released (unlock b >> m)
  release-then b m f = Leads-change (Before b) Released Released (unlock b) m (release-Leads b) f

  reattach-Leads :
      (fuel : ℕ) (cfg : StartSandboxConfig)
      → Leads (Before cfg.storage_lock) Released (reattach o fuel cfg)
  unfolding reattach
  reattach-Leads fuel cfg = release-then cfg.storage_lock _ (
      search (lock_rules, wait_if_asked-Leads, attached-Leads, stored_reattached-Leads) depth 14
        fits 4000)

  finish_start-Leads :
      (fuel : ℕ) (cfg : StartSandboxConfig) (run : Bytes × Bytes) (token : Bytes)
      → Leads Released Released (finish_start o fuel cfg run token)
  unfolding finish_start
  finish_start-Leads fuel cfg run token = search (lock_rules, wait_if_asked-Leads) depth 14

  store_token-Leads :
      (config_file : Bytes) (s : SandboxSession) (rest : Op Started)
      → Leads Released Released rest
      → Leads Released Released (store_token o config_file s rest)
  unfolding store_token
  store_token-Leads config_file s rest f =
      lock-then o Released _ _
        (λ e. Leads-then (Locked false) Released _ _ (log_warned-Leads (is_locked false) _) (
          store_session-Leads false config_file s (codes "scoped_token") _
            (λ loaded. unlock-then false Released rest f)))
        (store_session-Leads true config_file s (codes "scoped_token") _
          (λ loaded. unlock-then true Released rest f))

  store_started-Leads :
      (fuel : ℕ) (cfg : StartSandboxConfig) (b : Bool) (run : Bytes × Bytes)
      → Leads (Locked b) Released (store_started o fuel cfg b run)
  unfolding store_started
  store_started-Leads fuel cfg b run =
      Leads-bind (Locked b) Released _ _ (now-Leads (is_locked b) o) (λ time.
        store_session-Leads b cfg.config_file _ (codes "start_session") _ (λ loaded.
          unlock-then b Released _ (
            search (lock_rules, token_or_empty-Leads, store_token-Leads, finish_start-Leads) depth
              14 fits 4000)))

  initiated-Leads :
      (b : Bool) (config_file : Bytes) → Leads (Before b) (Before b) (initiate_run o config_file)
  unfolding Before
  initiated-Leads true config_file = initiate_run-Leads (is_locked true) o config_file
  initiated-Leads false config_file = initiate_run-Leads is_released o config_file

  begin-Leads :
      (fuel : ℕ) (cfg : StartSandboxConfig) (b : Bool) (run : Bytes × Bytes)
      → Leads (Before b) Released (begin_session o fuel cfg b run)
  unfolding Before begin_session
  begin-Leads fuel cfg true run = store_started-Leads fuel cfg true run
  begin-Leads fuel cfg false run =
      lock-then o Released _ _
        (λ e.
          Leads-then (Locked false) Released _ _ (log_warned-Leads (is_locked false) _)
            (store_started-Leads fuel cfg false run))
        (store_started-Leads fuel cfg true run)

  start_run-Leads :
      (fuel : ℕ) (cfg : StartSandboxConfig)
      → Leads (Before cfg.storage_lock) Released (start_run o fuel cfg)
  unfolding start_run
  start_run-Leads fuel cfg =
      Leads-bind (Before cfg.storage_lock) Released _ _
        (initiated-Leads cfg.storage_lock cfg.config_file)
        (λ begun.
          Leads-result (Before cfg.storage_lock) Released begun _ _
            (λ e. release-then cfg.storage_lock _ (Leads-return Released _))
            (λ run. begin-Leads fuel cfg cfg.storage_lock run))

  start_there-Leads :
      (fuel : ℕ) (cfg : StartSandboxConfig)
      → Leads (Before cfg.storage_lock) Released (start_there o fuel cfg)
  unfolding start_there
  start_there-Leads fuel cfg =
      Leads-list (Before cfg.storage_lock) Released cfg.run_id _ _ (start_run-Leads fuel cfg)
        (λ c rest. reattach-Leads fuel cfg)

  -- Released; or os.Getwd has failed, and what held before still does.
  pub data Ends (b : Bool) (h : Past) : Type 0 where
    releases : Released h → Ends b h
    keeps : (past : Past) (e : GoError) → o.no_directory past ≡ some e → Before b h → Ends b h

  on_lost-Ends :
      (b : Bool) (m : Op Started) (failed : GoError → Started) (h : Past) (lost : Option GoError)
      → Leads (Before b) Released m
      → Before b h
      → o.no_directory h ≡ lost
      → Ends b (on_error lost (λ e. return (failed e)) m h).1
  unfolding on_error return
  on_lost-Ends b m failed h none f p e = releases (f.at h p)
  on_lost-Ends b m failed h (some x) f p e = keeps h x e p

  pub start_sandbox-Leads :
      (fuel : ℕ) (cfg : StartSandboxConfig)
      → Leads (Before cfg.storage_lock) (Ends cfg.storage_lock) (start_sandbox o fuel cfg)
  unfolding start_sandbox getwd ◌>>=◌
  start_sandbox-Leads fuel cfg = record {
    at = λ h p.
        on_lost-Ends cfg.storage_lock (start_there o fuel cfg) _ h (o.no_directory h)
          (start_there-Leads fuel cfg) p refl;
  }

  -- Who has no lock to keep ends without one.
  pub Ends-Released : (h : Past) → Ends false h → Released h
  unfolding Before
  Ends-Released h (releases p) = p
  Ends-Released h (keeps past e lost p) = p

  pub Ends-false : (h : Past) → Ends false h → Ends true h
  Ends-false h p = releases (Ends-Released h p)

  log_recorded-Before : (b : Bool) (x : Bytes) (h : Past) → Before b h → Before b (recorded x ∷ h)
  unfolding Before log
  log_recorded-Before true x h p = (log_recorded-Leads (is_locked true) x).at h p
  log_recorded-Before false x h p = (log_recorded-Leads is_released x).at h p

  pub log_recorded-Ends : (b : Bool) (x : Bytes) → Leads (Ends b) (Ends b) (log (recorded x))
  unfolding log
  log_recorded-Ends b x = record {
    at = λ h p. elim p [
      | releases q ↦ releases ((log_recorded-Leads is_released x).at h q)
      | keeps past e lost q ↦ keeps past e lost (log_recorded-Before b x h q)
    ];
  }

  pub crash-Ends :
      {V : Type 0} (b : Bool) (fits : LockState → Bool) (fail : OpFailure → V) (p : Panic)
      → Leads (LockIn fits) (Ends b) (crash fail p)
  crash-Ends b fits fail p = record { at = λ h q. releases ((crash-Leads fits fail p).at h q) }
