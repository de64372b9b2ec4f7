-- ===== src/Wait/Polling.antt =====
-- When the wait for a run ends, and with what.
use rwx.Prelude.{
  ℕ, zero, suc, ◌+◌, ◌<◌, length, not, ◌||◌, Option, none, some, List, [], ◌∷◌, ◌++◌, append_assoc,
  append-nil, Bytes, if◌then◌else◌, ◌≡◌, ap, sym, ◌∙◌, subst, arith,
}
use rwx.Prelude.Result.{Result, ok, err}
use rwx.Wait.{
  Config, RunStatus, GetRunStatusResult, WaitError, no_status, unable_to_wait, shown_status,
  run_result, Waited, poll, get_run_status,
}

module _ {ℓ} {E : Type ℓ} (answers : ℕ → Result E RunStatus) (cfg : Config) where
  -- After how long to ask again; `none` where an answer ends the wait.
  unfoldable pub asks_again : Result E RunStatus → Option ℕ
  asks_again (err e) = none
  asks_again (ok r) = if not cfg.wait || r.completed then none else r.backoff_ms

  -- What an answer that ends the wait gives.
  unfoldable pub outcome_of : Result E RunStatus → Result (WaitError E) GetRunStatusResult
  outcome_of (err e) = err (no_status e)
  outcome_of (ok r) =
      if not cfg.wait || r.completed then ok (run_result cfg r) else err unable_to_wait

  -- The `run.complete` event after it: only for a completed run.
  unfoldable pub event_of : Result E RunStatus → Option Bytes
  event_of (err e) = none
  event_of (ok r) = if r.completed then some (shown_status r) else none

  -- The first `k` answers from `n` on ask again, after the times `sleeps`.
  pub data AskAgain : ℕ → List ℕ → Type 0 where
    first : {n : ℕ} → AskAgain n []
    more :
        {n ms : ℕ} {sleeps : List ℕ}
        → asks_again (answers n) ≡ some ms
        → AskAgain (n + 1) sleeps
        → AskAgain n (ms ∷ sleeps)

  -- What the call gives when the answer `k` ends the wait after these sleeps.
  abbrev pub ended_by : ℕ → List ℕ → Waited E
  ended_by k sleeps = record {
    outcome = outcome_of (answers k);
    requests = k + 1;
    sleeps = sleeps;
    run_complete = event_of (answers k);
  }

  poll-ends :
      (fuel n : ℕ) (before : List ℕ)
      → asks_again (answers n) ≡ none
      → poll answers cfg (suc fuel) n before ≡ some (ended_by n before)
  unfolding poll asks_again outcome_of event_of
  poll-ends fuel n before h = ground (arith, h)

  poll-again :
      (fuel n : ℕ) (before : List ℕ) {ms : ℕ}
      → asks_again (answers n) ≡ some ms
      → poll answers cfg (suc fuel) n before ≡ poll answers cfg fuel (n + 1) (before ++ (ms ∷ []))
  unfolding poll asks_again
  poll-again fuel n before h = ground (arith, h)

  poll-AskAgain :
      (fuel n k : ℕ) (before sleeps : List ℕ)
      → AskAgain n sleeps
      → k ≡ n + length sleeps
      → asks_again (answers k) ≡ none
      → length sleeps < fuel
      → poll answers cfg fuel n before ≡ some (ended_by k (before ++ sleeps))
  poll-AskAgain zero n k before sleeps a e h l = absurd (omega (arith, l))
  poll-AskAgain (suc fuel) n k before [] first e h l =
      let at : n ≡ k = omega (arith, e) in
      poll-ends fuel n before (subst (λ j. asks_again (answers j) ≡ none) (sym at) h)
      ∙ ap (λ j. some (ended_by j before)) at
      ∙ ap (λ b. some (ended_by k b)) (sym (append-nil before))
  poll-AskAgain (suc fuel) n k before (ms ∷ sleeps) (more again a) e h l =
      poll-again fuel n before again
      ∙ poll-AskAgain fuel (n + 1) k (before ++ (ms ∷ [])) sleeps a (omega (arith, e)) h
          (omega (arith, l))
      ∙ ap (λ b. some (ended_by k b)) (append_assoc before (ms ∷ []) sleeps)

  -- The wait ends with the first answer that does not ask to be asked again: with an error, if the
  -- call failed, or if the server gives no time after which to ask; otherwise with the run's status,
  -- which is always the first answer's if the flag for waiting is not set, and a completed run's if
  -- it is. One request is sent for each answer, and between them the call sleeps exactly as long as
  -- each answer says. The event `run.complete` is recorded exactly if the run is completed.
  pub get_run_status-AskAgain :
      (fuel : ℕ) (sleeps : List ℕ)
      → AskAgain 0 sleeps
      → asks_again (answers (length sleeps)) ≡ none
      → length sleeps < fuel
      → get_run_status answers cfg fuel ≡ some (ended_by (length sleeps) sleeps)
  unfolding get_run_status
  get_run_status-AskAgain fuel sleeps a h l =
      poll-AskAgain fuel 0 (length sleeps) [] sleeps a (omega arith) h l
