-- ===== src/ApiClient/Tests.antt =====
-- The round trip and the download on concrete answers.
use rwx.Prelude.{
  ℕ, zero, suc, ◌+◌, ◌/◌, ◌≤◌, false, Option, none, some, List, [], length, Bytes, codes, ◌≡◌, refl,
  arith,
}
use rwx.Prelude.Result.{Result, ok}
use rwx.ApiClient.{Response, no_body, Server, Trip, round_trip_client, retry_after_delay}
use rwx.ApiClient.RetryAfter.{Repeats, Ends, round_trip_client-Ends}
use rwx.ApiClient.Download.{LogAnswer, no_answer, answer, LogOutcome, download_logs}
use rwx.ApiClient.Logs.{
  IsClock, AllRetried, ending, backoffs, backoff_at-bounds, download_logs-AllRetried,
}

abbrev no_date : Bytes → Option ℕ
no_date value = none

two_seconds : retry_after_delay no_date (codes " 2 ") 0 ≡ some 2000000000
unfolding retry_after_delay
two_seconds = refl

-- Busy at the first request only.
abbrev busy_once : ℕ → Result Bytes Response
busy_once zero = ok (record { status_code = 503; retry_after = codes "2"; body = [] })
busy_once (suc n) = ok (record { status_code = 200; retry_after = []; body = codes "ok" })

abbrev a_server : Server Bytes
a_server = record {
  answers = busy_once;
  now = λ n. 0;
  cancelled = λ n. false;
  body_lost = λ n. false;
}

round_trip_client-Ends_example :
    (delays : List ℕ) × Repeats no_date a_server no_body 0 delays
    × (length delays ≤ 4)
    × (trip : Trip Bytes) × (round_trip_client no_date a_server no_body ≡ some trip)
    × Ends no_date a_server no_body (length delays) delays trip
round_trip_client-Ends_example = round_trip_client-Ends no_date a_server no_body

-- The server wakes up after one attempt.
abbrev wakes_up : ℕ → LogAnswer Bytes
wakes_up zero = no_answer (codes "refused")
wakes_up (suc n) =
    answer (record { status_code = 200; status = codes "200 OK"; body = some (codes "log") })

abbrev slow_clock : ℕ → ℕ
slow_clock zero = 0
slow_clock (suc n) = slow_clock n + 5000

slow_clock-IsClock : IsClock slow_clock
slow_clock-IsClock n = omega (arith, (backoff_at-bounds n).1)

abbrev no_message : Bytes → Bytes
no_message body = []

download_logs-AllRetried_example :
    (k : ℕ) × (k ≤ 30000 / 1000 + 1)
    × AllRetried no_message wakes_up slow_clock 30000 k
    × (o : LogOutcome Bytes) × (ending no_message wakes_up slow_clock 30000 k ≡ some o)
    × (download_logs no_message wakes_up slow_clock 30000 (30000 / 1000 + 2)
        ≡ some (record { outcome = o; sleeps = backoffs k }))
download_logs-AllRetried_example =
    download_logs-AllRetried no_message wakes_up slow_clock 30000 slow_clock-IsClock
