-- ===== src/SandboxOps/Locks.antt =====
-- The lock of the stored sessions: who holds it when, and what is saved under it.
use rwx.Prelude.{
  ℕ, Bool, true, false, Option, none, some, [], ◌∷◌, Bytes, ◌≡◌, refl, ap, ◌∙◌, arith,
}
use rwx.Prelude.Traced.{log}
use rwx.Prelude.Leads.{Leads}
use rwx.SandboxOps.World.{
  OpEvent, locked, lock_failed, unlocked, panicked, saved, save_refused, asked, cancelled, listed,
  connected, ended_by_ssh, tunnels_closed, token_created, initiated, slept, warned, recorded, Past,
  Outside, load_sessions, get_connection_info, connect_ssh, cancel_run, close_all_tunnels, now,
  list_sandbox_runs, create_sandbox_token, initiate_run,
}

-- The lock is free, held by this process, or was not to be had, so that the process went on without it.
pub data LockState : Type 0 where
  free held given_up : LockState

-- The state after an event; `none` if the lock is taken twice, released by who does not hold it, or
-- sessions are saved by a process that did not try for it.
unfoldable pub next_state : LockState → OpEvent → Option LockState
next_state free locked = some held
next_state given_up locked = some held
next_state held locked = none
next_state free lock_failed = some given_up
next_state given_up lock_failed = some given_up
next_state held lock_failed = none
next_state held unlocked = some free
next_state free unlocked = none
next_state given_up unlocked = none
next_state free (saved s) = none
next_state free (save_refused s) = none
next_state s panicked = some free
next_state s _ = some s

unfoldable pub lock_state : Past → Option LockState
unfolding next_state
lock_state [] = some free
lock_state (e ∷ h) = elim (lock_state h) [ none ↦ none | some s ↦ next_state s e ]

pub lock_state-step :
    {s t : LockState} (e : OpEvent) (h : Past)
    → next_state s e ≡ some t
    → lock_state h ≡ some s
    → lock_state (e ∷ h) ≡ some t
unfolding lock_state
lock_state-step {s = s} e h n k =
    ap (λ m. elim m as (λ _. Option LockState) [ none ↦ none | some t ↦ next_state t e ]) k ∙ n

-- Everything but the lock, a save and a panic.
is_neutral : OpEvent → Bool
is_neutral locked = false
is_neutral lock_failed = false
is_neutral unlocked = false
is_neutral panicked = false
is_neutral (saved s) = false
is_neutral (save_refused s) = false
is_neutral _ = true

neutral-stays : (s : LockState) (e : OpEvent) → is_neutral e ≡ true → next_state s e ≡ some s
unfolding next_state is_neutral
neutral-stays s locked h = ground arith
neutral-stays s lock_failed h = ground arith
neutral-stays s unlocked h = ground arith
neutral-stays s panicked h = ground arith
neutral-stays s (saved t) h = ground arith
neutral-stays s (save_refused t) h = ground arith
neutral-stays free _ h = refl
neutral-stays held _ h = refl
neutral-stays given_up _ h = refl

-- The state of the lock is one of these.
pub record LockIn (fits : LockState → Bool) (h : Past) : Type 0 where
  pub state : LockState
  pub state_is : lock_state h ≡ some state
  pub state_fits : fits state ≡ true

abbrev pub is_released : LockState → Bool
is_released free = true
is_released given_up = true
is_released held = false

-- Held if there is a lock, else given up.
abbrev pub is_locked : Bool → LockState → Bool
is_locked true held = true
is_locked false given_up = true
is_locked _ _ = false

abbrev pub Released : Past → Type 0
Released = LockIn is_released

abbrev pub Locked : Bool → Past → Type 0
Locked has_lock = LockIn (is_locked has_lock)

module _ (fits : LockState → Bool) where
  LockIn-step : (e : OpEvent) (h : Past) → is_neutral e ≡ true → LockIn fits h → LockIn fits (e ∷ h)
  LockIn-step e h n p = record {
    state = p.state;
    state_is = lock_state-step e h (neutral-stays p.state e n) p.state_is;
    state_fits = p.state_fits;
  }

  log_neutral : (e : OpEvent) → is_neutral e ≡ true → Leads (LockIn fits) (LockIn fits) (log e)
  unfolding log
  log_neutral e n = record { at = λ h p. LockIn-step e h n p }

  module _ (o : Outside) where
    pub load_sessions-Leads : Leads (LockIn fits) (LockIn fits) (load_sessions o)
    unfolding load_sessions
    load_sessions-Leads = record { at = λ h p. p }

    pub now-Leads : Leads (LockIn fits) (LockIn fits) (now o)
    unfolding now
    now-Leads = record { at = λ h p. p }

    pub get_connection_info-Leads :
        (run_id token : Bytes)
        → Leads (LockIn fits) (LockIn fits) (get_connection_info o run_id token)
    unfolding get_connection_info is_neutral
    get_connection_info-Leads run_id token = record {
      at = λ h p. LockIn-step (asked run_id token) h refl p;
    }

    pub connect_ssh-Leads : Leads (LockIn fits) (LockIn fits) (connect_ssh o)
    unfolding connect_ssh is_neutral
    connect_ssh-Leads = record { at = λ h p. LockIn-step connected h refl p }

    pub cancel_run-Leads :
        (run_id token : Bytes) → Leads (LockIn fits) (LockIn fits) (cancel_run o run_id token)
    unfolding cancel_run is_neutral
    cancel_run-Leads run_id token = record {
      at = λ h p. LockIn-step (cancelled run_id token) h refl p;
    }

    pub close_all_tunnels-Leads :
        (run_id : Bytes) → Leads (LockIn fits) (LockIn fits) (close_all_tunnels o run_id)
    unfolding close_all_tunnels is_neutral
    close_all_tunnels-Leads run_id = record {
      at = λ h p. LockIn-step (tunnels_closed run_id) h refl p;
    }

    pub list_sandbox_runs-Leads : Leads (LockIn fits) (LockIn fits) (list_sandbox_runs o)
    unfolding list_sandbox_runs is_neutral
    list_sandbox_runs-Leads = record { at = λ h p. LockIn-step listed h refl p }

    pub create_sandbox_token-Leads :
        (run_id : Bytes) → Leads (LockIn fits) (LockIn fits) (create_sandbox_token o run_id)
    unfolding create_sandbox_token is_neutral
    create_sandbox_token-Leads run_id = record {
      at = λ h p. LockIn-step (token_created run_id) h refl p;
    }

    pub initiate_run-Leads :
        (config_file : Bytes) → Leads (LockIn fits) (LockIn fits) (initiate_run o config_file)
    unfolding initiate_run is_neutral
    initiate_run-Leads config_file = record {
      at = λ h p. LockIn-step (initiated config_file) h refl p;
    }

  pub log_warned-Leads : (text : Bytes) → Leads (LockIn fits) (LockIn fits) (log (warned text))
  unfolding is_neutral
  log_warned-Leads text = log_neutral (warned text) refl

  pub log_recorded-Leads : (text : Bytes) → Leads (LockIn fits) (LockIn fits) (log (recorded text))
  unfolding is_neutral
  log_recorded-Leads text = log_neutral (recorded text) refl

  pub log_slept-Leads : (ms : ℕ) → Leads (LockIn fits) (LockIn fits) (log (slept ms))
  unfolding is_neutral
  log_slept-Leads ms = log_neutral (slept ms) refl

  pub log_ended-Leads : Leads (LockIn fits) (LockIn fits) (log ended_by_ssh)
  unfolding is_neutral
  log_ended-Leads = log_neutral ended_by_ssh refl
