-- ===== src/SandboxOps/LockRules.antt =====
-- How the lock is taken, released, and kept while sessions are saved.
use rwx.Prelude.{Bool, true, false, Option, none, some, ◌∷◌, ◌≡◌, refl, arith}
use rwx.Prelude.Traced.{◌>>=◌, ◌>>◌, return, log, on_error}
use rwx.Prelude.Leads.{Leads, Leads-change, Leads-then, Leads-return, leads_rules}
use rwx.Errors.{GoError}
use rwx.Sandbox.Storage.{SandboxStorage}
use rwx.Sandbox.Key.{Panic}
use rwx.SandboxOps.World.{
  OpEvent, locked, lock_failed, unlocked, panicked, saved, save_refused, Past, Op, Outside,
  OpFailure, crash, unlock, after_save, attempt_lock, lock_sandbox_storage_with_info, save_sessions,
}
use rwx.SandboxOps.Locks.{
  LockState, free, held, given_up, next_state, lock_state, lock_state-step, LockIn, is_released,
  is_locked, Released, Locked, load_sessions-Leads, now-Leads, get_connection_info-Leads,
  connect_ssh-Leads, cancel_run-Leads, close_all_tunnels-Leads, list_sandbox_runs-Leads,
  create_sandbox_token-Leads, initiate_run-Leads, log_warned-Leads, log_recorded-Leads,
  log_slept-Leads, log_ended-Leads,
}

-- One event that leads from some states to others.
LockIn-event :
    (from to : LockState → Bool) (e : OpEvent)
    → ((s : LockState)
        → from s ≡ true
        → (t : LockState) × (next_state s e ≡ some t) × (to t ≡ true))
    → (h : Past) → LockIn from h
    → LockIn to (e ∷ h)
LockIn-event from to e moves h p =
    let moved = moves p.state p.state_fits in
    record {
      state = moved.0;
      state_is = lock_state-step e h moved.1 p.state_is;
      state_fits = moved.2;
    }

save-moves :
    (b : Bool) (storage : SandboxStorage) (s : LockState)
    → is_locked b s ≡ true
    → (t : LockState) × (next_state s (saved storage) ≡ some t) × (is_locked b t ≡ true)
unfolding next_state
save-moves true storage held e = (held, refl, refl)
save-moves false storage given_up e = (given_up, refl, refl)
save-moves true storage free e = ground arith
save-moves true storage given_up e = ground arith
save-moves false storage free e = ground arith
save-moves false storage held e = ground arith

save_refused-moves :
    (b : Bool) (storage : SandboxStorage) (s : LockState)
    → is_locked b s ≡ true
    → (t : LockState) × (next_state s (save_refused storage) ≡ some t) × (is_locked b t ≡ true)
unfolding next_state
save_refused-moves true storage held e = (held, refl, refl)
save_refused-moves false storage given_up e = (given_up, refl, refl)
save_refused-moves true storage free e = ground arith
save_refused-moves true storage given_up e = ground arith
save_refused-moves false storage free e = ground arith
save_refused-moves false storage held e = ground arith

after_save-Leads :
    (b : Bool) (refused : Option GoError) (s : SandboxStorage)
    → Leads (Locked b) (Locked b) (after_save refused s)
unfolding after_save
after_save-Leads b none s = record {
  at = λ h p. LockIn-event (is_locked b) (is_locked b) (saved s) (save-moves b s) h p;
}
after_save-Leads b (some e) s = record {
  at =
      λ h p. LockIn-event (is_locked b) (is_locked b) (save_refused s) (save_refused-moves b s) h p;
}

pub save_sessions-Leads :
    (o : Outside) (b : Bool) (s : SandboxStorage) → Leads (Locked b) (Locked b) (save_sessions o s)
unfolding save_sessions
save_sessions-Leads o b s = record { at = λ h p. (after_save-Leads b (o.save h s) s).at h p }

unlock-moves :
    (s : LockState)
    → is_locked true s ≡ true
    → (t : LockState) × (next_state s unlocked ≡ some t) × (is_released t ≡ true)
unfolding next_state
unlock-moves held e = (free, refl, refl)
unlock-moves free e = ground arith
unlock-moves given_up e = ground arith

log_unlocked-Leads : Leads (Locked true) Released (log unlocked)
unfolding log
log_unlocked-Leads = record {
  at = λ h p. LockIn-event (is_locked true) is_released unlocked unlock-moves h p;
}

given_up-fits : (s : LockState) → is_locked false s ≡ true → is_released s ≡ true
given_up-fits given_up e = refl
given_up-fits free e = refl
given_up-fits held e = ground arith

pub given_up-Released : (h : Past) → Locked false h → Released h
given_up-Released h p = record {
  state = p.state;
  state_is = p.state_is;
  state_fits = given_up-fits p.state p.state_fits;
}

pub unlock-Leads : (b : Bool) → Leads (Locked b) Released (unlock b)
unfolding unlock return
unlock-Leads true = log_unlocked-Leads
unlock-Leads false = record { at = given_up-Released }

pub unlock-then {ℓ} :
    {V : Type ℓ} (b : Bool) (R : Past → Type 0) (m : Op V)
    → Leads Released R m
    → Leads (Locked b) R (unlock b >> m)
unlock-then b R m f = Leads-change (Locked b) Released R (unlock b) m (unlock-Leads b) f

pub log_unlocked-then {ℓ} :
    {V : Type ℓ} (R : Past → Type 0) (m : Op V)
    → Leads Released R m
    → Leads (Locked true) R (log unlocked >> m)
log_unlocked-then R m f =
    Leads-change (Locked true) Released R (log unlocked) m log_unlocked-Leads f

panic-moves :
    (fits : LockState → Bool) (s : LockState)
    → fits s ≡ true
    → (t : LockState) × (next_state s panicked ≡ some t) × (is_released t ≡ true)
unfolding next_state
panic-moves fits free e = (free, refl, refl)
panic-moves fits held e = (free, refl, refl)
panic-moves fits given_up e = (free, refl, refl)

pub crash-Leads {ℓ} :
    {V : Type ℓ} (fits : LockState → Bool) (fail : OpFailure → V) (p : Panic)
    → Leads (LockIn fits) Released (crash fail p)
unfolding crash ◌>>◌ log return
crash-Leads fits fail p = record {
  at = λ h q. LockIn-event fits is_released panicked (panic-moves fits) h q;
}

lock-moves :
    (s : LockState)
    → is_released s ≡ true
    → (t : LockState) × (next_state s locked ≡ some t) × (is_locked true t ≡ true)
unfolding next_state
lock-moves free e = (held, refl, refl)
lock-moves given_up e = (held, refl, refl)
lock-moves held e = ground arith

give_up-moves :
    (s : LockState)
    → is_released s ≡ true
    → (t : LockState) × (next_state s lock_failed ≡ some t) × (is_locked false t ≡ true)
unfolding next_state
give_up-moves free e = (given_up, refl, refl)
give_up-moves given_up e = (given_up, refl, refl)
give_up-moves held e = ground arith

-- What the attempt to take the lock leaves.
abbrev pub has_lock : Option GoError → Bool
has_lock none = true
has_lock (some e) = false

attempt_lock-Locked :
    (tried waited : Option GoError) (h : Past)
    → Released h
    → Locked (has_lock (attempt_lock tried waited h).0) (attempt_lock tried waited h).1
unfolding attempt_lock
attempt_lock-Locked none waited h p =
    LockIn-event is_released (is_locked true) locked lock-moves h p
attempt_lock-Locked (some c) none h p =
    LockIn-event is_released (is_locked true) locked lock-moves h p
attempt_lock-Locked (some c) (some e) h p =
    LockIn-event is_released (is_locked false) lock_failed give_up-moves h p

on_lock-Leads {ℓ} :
    {V : Type ℓ} (R : Past → Type 0) (lock_err : Option GoError) (failed : GoError → Op V)
    (rest : Op V)
    → ((e : GoError) → Leads (Locked false) R (failed e))
    → Leads (Locked true) R rest
    → Leads (Locked (has_lock lock_err)) R (on_error lock_err failed rest)
unfolding on_error
on_lock-Leads R none failed rest f g = g
on_lock-Leads R (some e) failed rest f g = f e

pub lock-then {ℓ} :
    {V : Type ℓ} (o : Outside) (R : Past → Type 0) (failed : GoError → Op V) (rest : Op V)
    → ((e : GoError) → Leads (Locked false) R (failed e))
    → Leads (Locked true) R rest
    → Leads Released R (lock_sandbox_storage_with_info o >>= λ e. on_error e failed rest)
unfolding ◌>>=◌ lock_sandbox_storage_with_info
lock-then o R failed rest f g = record {
  at = λ h p.
      let attempt = attempt_lock (o.try_lock h) (o.lock h) h in
      (on_lock-Leads R attempt.0 failed rest f g).at attempt.1
        (attempt_lock-Locked (o.try_lock h) (o.lock h) h p);
}

-- A process that gave up the lock does not hold it.
pub give_up-then {ℓ} : {V : Type ℓ} (v : V) → Leads (Locked false) Released (return v)
unfolding return
give_up-then v = record { at = given_up-Released }

pub ruleset lock_rules = (
  leads_rules, load_sessions-Leads, now-Leads, get_connection_info-Leads, connect_ssh-Leads,
  cancel_run-Leads, close_all_tunnels-Leads, list_sandbox_runs-Leads, create_sandbox_token-Leads,
  initiate_run-Leads, log_warned-Leads, log_recorded-Leads, log_slept-Leads, log_ended-Leads,
  save_sessions-Leads, unlock-then, log_unlocked-then, crash-Leads, lock-then, give_up-then,
)
