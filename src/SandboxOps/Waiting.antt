-- ===== src/SandboxOps/Waiting.antt =====
-- internal/cli/service_sandbox.go: waiting for a sandbox to be ready, and for a run to be over.
use rwx.Prelude.{
  ℕ, zero, suc, ◌+◌, ltb, Bool, true, false, ◌&&◌, ◌||◌, not, Option, none, some, [], ◌++◌, ◌==◌,
  bytes_eq, bytes_beq, Bytes, codes, if◌then◌else◌,
}
use rwx.Prelude.Result.{Result, ok, err}
use rwx.Prelude.Traced.{◌>>=◌, ◌>>◌, return, log, on_error, on_result}
use rwx.Errors.{new_error, GoError, wrap, mark, sandbox_setup_failure}
use rwx.SandboxOps.World.{ConnectionInfo, slept, warned, Op, Outside, get_connection_info, now}

-- The header that is printed, and the error; `HandledError` has no part in it.
unfoldable pub completed_text : Bytes → Bytes → Bytes
unfolding bytes_beq
completed_text run_id failure_reason =
    codes "Sandbox run '"
    ++ run_id
    ++ (if failure_reason == codes "timed_out"
        then codes "' timed out before becoming ready"
        else if failure_reason == codes "cancelled"
        then codes "' was cancelled before becoming ready"
        else if failure_reason == codes "failed"
        then codes "' failed before becoming ready"
        else codes "' completed before becoming ready")

unfoldable pub sandbox_completed_error : Bytes → ConnectionInfo → Op GoError
sandbox_completed_error run_id info = do
  log (warned (codes "Error: " ++ completed_text run_id info.failure_reason))
  return (mark (new_error (completed_text run_id info.failure_reason)) sandbox_setup_failure)

-- A run that is over without a sandbox.
unfoldable pub is_over : ConnectionInfo → Bool
unfolding bytes_beq
is_over info = info.completed || not (info.failure_reason == [])

unfoldable pub ready_backoff : ConnectionInfo → ℕ
ready_backoff info = elim info.backoff_ms [ none ↦ 2000 | some ms ↦ ms ]

-- Where it ends, and where it asks again; `none` asks again.
abbrev pub Ready : Type 0
Ready = Option (Result GoError ConnectionInfo)

unfoldable pub completion_interval : ConnectionInfo → ℕ
completion_interval info = elim info.backoff_ms [
  | none ↦ 500
  | some ms ↦ if ltb 0 ms then ms else 500
]

module _ (o : Outside) (run_id token : Bytes) where
  -- What an answer means.
  unfoldable pub judge : ConnectionInfo → Op Ready
  judge info =
      if info.sandboxable
      then return (some (ok info))
      else if is_over info
      then (do e ← sandbox_completed_error run_id info; return (some (err e)))
      else return none

  unfoldable pub ready_loop : ℕ → ConnectionInfo → Op Ready
  ready_loop zero info = return none
  ready_loop (suc fuel) info = do
    log (slept (ready_backoff info))
    answer ← get_connection_info o run_id token
    on_result answer
        (λ e. return (some (err (wrap (codes "unable to get sandbox connection info") e))))
        (λ next. do
          ended ← judge next
          on_error ended (λ r. return (some r)) (ready_loop fuel next))

  -- `waitForSandboxReadyWithToken`; `none` while it still waits after `fuel` rounds.
  unfoldable pub wait_for_sandbox_ready : ℕ → Op Ready
  wait_for_sandbox_ready fuel = do
    answer ← get_connection_info o run_id token
    on_result answer
        (λ e. return (some (err (wrap (codes "unable to get sandbox connection info") e))))
        (λ info. do
          ended ← judge info
          on_error ended (λ r. return (some r)) (ready_loop fuel info))

  -- Until the run is over, the answer is an error or the deadline has passed; `false` if the fuel is out.
  unfoldable pub completion_loop : ℕ → ℕ → Op Bool
  completion_loop zero deadline = return false
  completion_loop (suc fuel) deadline = do
    time ← now o
    if ltb time deadline
        then (do
          answer ← get_connection_info o run_id token
          on_result answer (λ e. return true)
              (λ info.
                if info.completed && not info.sandboxable
                then return true
                else (do log (slept (completion_interval info)); completion_loop fuel deadline)))
        else (do
          log (
              warned (
                codes "Warning: timed out waiting for sandbox "
                ++ run_id
                ++ codes " to fully stop\n"))
          return true)

  -- `waitForSandboxCompletion`: at most 30 seconds, and at least a millisecond each round.
  unfoldable pub wait_for_sandbox_completion : Op Bool
  wait_for_sandbox_completion = do start ← now o; completion_loop 30001 (start + 30000)
