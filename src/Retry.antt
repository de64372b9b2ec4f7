-- ===== src/Retry.antt =====
-- internal/retry: transient errors, the backoff of polling loops, and the retrying round tripper.
-- Durations are nanoseconds. `Record` doubles only what is at most `MaxInterval`, so nothing wraps
-- in an int64 while that is under 2 ^ 62.
mod Tests
pub mod Bounds
pub mod RoundTrip
use rwx.Prelude.{
  ℕ, zero, suc, ◌+◌, ◌*◌, Bool, true, false, ◌||◌, Option, none, some, codes, contains, ltb, leb,
  List, [], ◌∷◌, ◌++◌, ◌&&◌, if◌then◌else◌, Bytes,
}
use rwx.Prelude.Result.{Result, ok, err}
use rwx.Errors.{
  Kind, plain, dns, net, Target, GoError, leaf, wrap, marked, is, error, mark, network_transient,
}
use rwx.Prelude.Decimal.{decimal}

-- `errors.As` with a *net.DNSError: the first one's `IsTemporary`
unfoldable pub as_dns : GoError → Option Bool
as_dns (leaf (dns temporary) _) = some temporary
as_dns (leaf _ _) = none
as_dns (wrap _ e) = as_dns e
as_dns (marked inner s) = elim (as_dns inner) [ some t ↦ some t | none ↦ as_dns s ]

-- `errors.As` with a net.Error: the first one's `Timeout()`
unfoldable pub as_net : GoError → Option Bool
as_net (leaf (net timeout) _) = some timeout
as_net (leaf _ _) = none
as_net (wrap _ e) = as_net e
as_net (marked inner s) = elim (as_net inner) [ some t ↦ some t | none ↦ as_net s ]

is_timeout : Option Bool → Bool
is_timeout none = false
is_timeout (some timeout) = timeout

-- the checks behind the one for DNS errors, which returns
is_transient_other : GoError → Bool
unfolding is_timeout
is_transient_other e =
    is_timeout (as_net e)
    || (is e Target.conn_reset || is e Target.conn_refused)
    || (is e Target.eof || is e Target.unexpected_eof)
    || (contains (error e) (codes "connection reset by peer")
        || contains (error e) (codes "connection refused")
        || contains (error e) (codes "broken pipe"))

unfoldable pub is_transient : Option GoError → Bool
unfolding is_transient_other as_dns
is_transient none = false
is_transient (some e) = elim (as_dns e) [ some temporary ↦ temporary | none ↦ is_transient_other e ]

pub record Backoff : Type 0 where
  pub consecutive_failures : ℕ
  pub max_failures : ℕ
  pub initial_interval : ℕ
  pub max_interval : ℕ

abbrev pub second : ℕ
second = 1_000_000_000

abbrev pub new_backoff : Backoff
new_backoff = record {
  consecutive_failures = 0;
  max_failures = 5;
  initial_interval = 1 * second;
  max_interval = 5 * second;
}

-- `for i := 1; i < ConsecutiveFailures; i++`, by the rounds left
unfoldable pub backoff_interval : ℕ → ℕ → ℕ → ℕ
backoff_interval max_interval zero interval = interval
backoff_interval max_interval (suc rounds) interval =
    let next = backoff_interval max_interval rounds (interval * 2) in
    if ltb max_interval (interval * 2) then max_interval else next

-- `Record`: the new counter, and the time to sleep; `none` is the error.
unfoldable pub record_failure : Backoff → Backoff × Option ℕ
unfolding backoff_interval
record_failure b =
    let failures = b.consecutive_failures + 1 in
    let b' = record b { consecutive_failures = failures } in
    if leb b.max_failures failures
    then (b', none)
    else (b', some (backoff_interval b.max_interval b.consecutive_failures b.initial_interval))

unfoldable pub reset : Backoff → Backoff
reset b = record b { consecutive_failures = 0 }

-- What a round trip did: its result, the requests made and the sleeps, the last one first.
pub record Trip {ℓ} (R : Type ℓ) : Type ℓ where
  pub result : Result GoError R
  pub requests : ℕ
  pub sleeps : List ℕ

-- the error of a request whose backoff is used up
exhausted : Backoff → GoError → GoError
exhausted b e =
    mark
      (wrap
        (codes "request failed after "
          ++ (decimal b.max_failures ++ codes " consecutive network errors"))
        e)
      network_transient

module _ {ℓ} {R : Type ℓ} where
  -- The loop of `RoundTrip`. `inner n` is the answer to request `n`, `is_get` the test of the
  -- method; `none` means that the fuel ran out.
  unfoldable pub round_trip_loop :
      (ℕ → Result GoError R) → Bool → ℕ → Backoff → ℕ → List ℕ → Option (Trip R)
  unfolding exhausted
  round_trip_loop inner is_get zero b n sleeps = none
  round_trip_loop inner is_get (suc fuel) b n sleeps =
      let done : Result GoError R → Option (Trip R) =
        λ r. some (record { result = r; requests = n + 1; sleeps = sleeps }) in
      elim (inner n) [
        | ok response ↦ done (ok response)
        | err e ↦ elim (is_get && is_transient (some e)) [
          | false ↦ done (err e)
          | true ↦
              let (b', to_sleep) = record_failure b in
              elim to_sleep [
                | none ↦ done (err (exhausted b' e))
                | some sleep ↦ round_trip_loop inner is_get fuel b' (n + 1) (sleep ∷ sleeps)
              ]
        ]
      ]

  -- `RoundTrip`. The backoff allows five requests.
  unfoldable pub round_trip : (ℕ → Result GoError R) → Bool → Option (Trip R)
  unfolding round_trip_loop
  round_trip inner is_get = round_trip_loop inner is_get 5 new_backoff 0 []
