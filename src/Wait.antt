-- ===== src/Wait.antt =====
-- Waiting for a run to complete (internal/cli/service_wait.go).
mod Polling
mod Tests
use rwx.Prelude.{
  ℕ, zero, suc, ◌+◌, Bool, true, false, not, ◌||◌, Option, none, some, List, [], ◌∷◌, ◌++◌, Bytes,
  if◌then◌else◌, ◌≡◌,
}
use rwx.Prelude.Result.{Result, ok, err}

pub record Config : Type 0 where
  pub run_id : Bytes
  pub wait : Bool

-- The server's answer: the results of the task and of the run, where it has them, and whether and
-- when to ask again.
pub record RunStatus : Type 0 where
  pub task_status : Option Bytes
  pub status : Option Bytes
  pub run_id : Bytes
  pub run_url : Bytes
  pub task_id : Bytes
  pub task_url : Bytes
  pub commit : Option Bytes
  pub completed : Bool
  pub backoff_ms : Option ℕ

pub record GetRunStatusResult : Type 0 where
  pub run_id : Bytes
  pub run_url : Bytes
  pub task_id : Bytes
  pub task_url : Bytes
  pub commit : Bytes
  pub result_status : Bytes
  pub completed : Bool

pub data WaitError {ℓ} (E : Type ℓ) : Type ℓ where
  no_status : E → WaitError E
  unable_to_wait : WaitError E

or_empty : Option Bytes → Bytes
or_empty none = []
or_empty (some s) = s

-- The status shown: the task's where there is one, else the run's.
unfoldable pub shown_status : RunStatus → Bytes
unfolding or_empty
shown_status r = elim r.task_status [ some result ↦ result | none ↦ or_empty r.status ]

shown_run_id : Config → RunStatus → Bytes
shown_run_id cfg r = elim r.run_id [ [] ↦ cfg.run_id | c ∷ id ↦ c ∷ id ]

unfoldable pub run_result : Config → RunStatus → GetRunStatusResult
unfolding shown_status shown_run_id or_empty
run_result cfg r = record {
  run_id = shown_run_id cfg r;
  run_url = r.run_url;
  task_id = r.task_id;
  task_url = r.task_url;
  commit = or_empty r.commit;
  result_status = shown_status r;
  completed = r.completed;
}

-- What `GetRunStatus` gives, with the requests sent, the sleeps in milliseconds and the status of the
-- `run.complete` event, if one is recorded.
pub record Waited {ℓ} (E : Type ℓ) : Type ℓ where
  pub outcome : Result (WaitError E) GetRunStatusResult
  pub requests : ℕ
  pub sleeps : List ℕ
  pub run_complete : Option Bytes

module _ {ℓ} {E : Type ℓ} (answers : ℕ → Result E RunStatus) (cfg : Config) where
  -- The loop from the request `n` on; `none` when the fuel is out.
  unfoldable pub poll : ℕ → ℕ → List ℕ → Option (Waited E)
  unfolding run_result
  poll zero n sleeps = none
  poll (suc fuel) n sleeps = elim (answers n) [
    | err e ↦ some (record {
      outcome = err (no_status e);
      requests = n + 1;
      sleeps = sleeps;
      run_complete = none;
    })
    | ok r ↦ elim (not cfg.wait || r.completed) [
      | true ↦ some (record {
        outcome = ok (run_result cfg r);
        requests = n + 1;
        sleeps = sleeps;
        run_complete = if r.completed then some (shown_status r) else none;
      })
      | false ↦ elim r.backoff_ms [
        | none ↦ some (record {
          outcome = err unable_to_wait;
          requests = n + 1;
          sleeps = sleeps;
          run_complete = none;
        })
        | some ms ↦ poll fuel (n + 1) (sleeps ++ (ms ∷ []))
      ]
    ]
  ]

  unfoldable pub get_run_status : ℕ → Option (Waited E)
  unfolding poll
  get_run_status fuel = poll fuel 0 []
