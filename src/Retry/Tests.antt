-- ===== src/Retry/Tests.antt =====
-- The theorems about retries at concrete round trips.
use rwx.Prelude.{ℕ, zero, suc, ◌*◌, true, false, some, [], ◌∷◌, ◌≡◌, refl, codes, contains}
use rwx.Prelude.Result.{Result, ok, err}
use rwx.Errors.{GoError, leaf, wrap, Kind, is, error}
use rwx.Retry.{
  Backoff, new_backoff, second, record_failure, reset, as_net, is_transient, Trip, round_trip,
}
use rwx.Retry.RoundTrip.{Outcome, round_trip-Outcome}

abbrev reset_by_peer : GoError
reset_by_peer = leaf Kind.conn_reset (codes "connection reset by peer")

transient_errors :
    (is_transient (some (wrap (codes "read") reset_by_peer)) ≡ true)
    × (is_transient (some (leaf (Kind.dns false) (codes "no such host"))) ≡ false)
    × (is_transient (some (leaf Kind.plain (codes "write: broken pipe"))) ≡ true)
    × (is_transient (some (leaf Kind.plain (codes "bad certificate"))) ≡ false)
unfolding is_transient is error contains as_net
transient_errors = (refl, refl, refl, refl)

abbrev third_failure : Backoff
third_failure = record new_backoff { consecutive_failures = 3 }

reset_runs : (reset third_failure).consecutive_failures ≡ 0
unfolding reset
reset_runs = refl

-- Two failures, then a response.
abbrev flaky : ℕ → Result GoError ℕ
flaky zero = err reset_by_peer
flaky (suc zero) = err reset_by_peer
flaky (suc (suc n)) = ok 200

flaky_trip :
    round_trip flaky true
    ≡ some (record { result = ok 200; requests = 3; sleeps = 2 * second ∷ second ∷ [] })
unfolding round_trip is_transient record_failure is error as_net
flaky_trip = refl

round_trip-Outcome_example :
    (t : Trip ℕ) × (round_trip flaky true ≡ some t) × Outcome flaky true 0 t
round_trip-Outcome_example = round_trip-Outcome flaky true
