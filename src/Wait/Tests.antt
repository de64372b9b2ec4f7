-- ===== src/Wait/Tests.antt =====
-- Waiting on concrete answers.
use rwx.Prelude.{
  ℕ, zero, suc, Bool, true, false, Option, none, some, [], ◌∷◌, Bytes, codes, ◌≡◌, refl, arith,
}
use rwx.Prelude.Result.{Result, ok}
use rwx.Wait.{Config, RunStatus, get_run_status}
use rwx.Wait.Polling.{asks_again, AskAgain, first, more, ended_by, get_run_status-AskAgain}

abbrev a_config : Config
a_config = record { run_id = codes "r"; wait = true }

abbrev status_of : Bool → Option ℕ → RunStatus
status_of completed backoff_ms = record {
  task_status = none;
  status = some (codes "succeeded");
  run_id = codes "r";
  run_url = [];
  task_id = [];
  task_url = [];
  commit = none;
  completed = completed;
  backoff_ms = backoff_ms;
}

-- The run completes at the second answer.
abbrev two_answers : ℕ → Result Bytes RunStatus
two_answers zero = ok (status_of false (some 500))
two_answers (suc n) = ok (status_of true none)

one_sleep : AskAgain two_answers a_config 0 (500 ∷ [])
unfolding asks_again
one_sleep = more refl first

get_run_status-AskAgain_example :
    get_run_status two_answers a_config 2 ≡ some (ended_by two_answers a_config 1 (500 ∷ []))
unfolding asks_again
get_run_status-AskAgain_example =
    get_run_status-AskAgain two_answers a_config 2 (500 ∷ []) one_sleep refl (ground arith)
