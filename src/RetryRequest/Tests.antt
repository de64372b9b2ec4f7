-- ===== src/RetryRequest/Tests.antt =====
-- The theorems about retry requests at concrete options.
use rwx.Prelude.{ℕ, ◌-◌, ◌≤◌, true, false, none, List, [], ◌∷◌, ◌≡◌, refl, codes, Bytes, bytes_beq}
use rwx.Prelude.Result.{Result, ok, err}
use rwx.Prelude.Traced.{◌>>=◌, on_result, return}
use rwx.Errors.{GoError}
use rwx.RetryRequest.{RetryOptions, RetryConfig, RequestRetryConfig, Picker, select_retry_request}
use rwx.RetryRequest.Allowed.{IsAllowed, select_retry_request-IsAllowed}
use rwx.RetryRequest.Sending.{
  RequestFailure, rejected, RetryEvent, offered, sent, retry, bare, IsSound, count_sent,
  retry-IsSound,
}

abbrev names : List Bytes
names = codes "go" ∷ codes "npm" ∷ codes "go" ∷ []

-- A picker that takes the first choice.
abbrev first_picker : Picker
first_picker = record { pick_one = λ n. ok 0; pick_many = λ n. ok (0 ∷ []) }

abbrev options : RetryOptions
options = record {
  retryable = true;
  unavailable_reason = [];
  actions =
      record { value = codes "failed"; label = []; description = [] }
      ∷ record { value = codes "no-tool-cache"; label = []; description = [] }
      ∷ [];
  tool_caches = record { name = codes "go"; usage_description = [] } ∷ [];
  debug = record { supported = false; disabled_reason = []; placements = [] };
}

abbrev flags : RetryConfig
flags = record {
  target = codes "run-1";
  action = codes "no-tool-cache";
  without_tool_cache = [];
  debug_placement = [];
  output_json = false;
}

abbrev request : RequestRetryConfig
request = record {
  target = codes "run-1";
  action = codes "no-tool-cache";
  debug = none;
  debug_placement = [];
  tool_cache_names = codes "go" ∷ [];
}

selects : select_retry_request first_picker false flags options ≡ ok request
unfolding select_retry_request bytes_beq
selects = refl

select_retry_request-IsAllowed_example : IsAllowed options request × (request.target ≡ flags.target)
select_retry_request-IsAllowed_example =
    select_retry_request-IsAllowed first_picker false flags options selects

-- The first request is rejected: `no-tool-cache` is no longer offered. The second is accepted.
abbrev by_target : RetryConfig
by_target = record {
  target = codes "run-1";
  action = [];
  without_tool_cache = [];
  debug_placement = [];
  output_json = false;
}

abbrev now_options : RetryOptions
now_options = record {
  retryable = true;
  unavailable_reason = [];
  actions = record { value = codes "failed"; label = []; description = [] } ∷ [];
  tool_caches = [];
  debug = record { supported = false; disabled_reason = []; placements = [] };
}

-- It picks the last of the actions that it is shown.
abbrev last_picker : Picker
last_picker = record { pick_one = λ n. ok (n - 1); pick_many = λ n. ok (0 ∷ []) }

abbrev api_options : Bytes → Result GoError RetryOptions
api_options target = ok options

abbrev api_request : List RetryEvent → RequestRetryConfig → Result RequestFailure ℕ
api_request (sent r ∷ h) _ = ok 7
api_request (offered o ∷ []) _ = err (rejected now_options)
api_request h _ = ok 7

abbrev retried : List RetryEvent
retried = (retry last_picker true api_options api_request by_target []).1

two_sent : count_sent retried ≡ 2
unfolding retry bytes_beq ◌>>=◌ on_result select_retry_request bare return
two_sent = refl

retry-IsSound_example : IsSound by_target retried × (count_sent retried ≤ 2)
retry-IsSound_example = retry-IsSound last_picker true api_options api_request by_target
