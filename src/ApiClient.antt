-- ===== src/ApiClient.antt =====
-- The API client's round trip, which waits and repeats a request that the server is too busy for, and
-- the download of logs (internal/api/client.go).
mod RetryAfter
mod Download
mod Logs
mod Tests
use rwx.Prelude.{
  ℕ, zero, suc, ◌+◌, ◌-◌, ◌*◌, ◌^◌, ◌/◌, Bool, true, false, not, ◌&&◌, ◌||◌, Option, none, some,
  List, [], ◌∷◌, ◌++◌, ◌==◌, nat_eq, Bytes, bytes_eq, bytes_beq, all, min, trim_space, leb, ltb,
  if◌then◌else◌, ◌≡◌,
}
use rwx.Prelude.Decimal.{is_digit, read_decimal}
use rwx.Prelude.Result.{Result, ok, err}

abbrev pub nanoseconds : ℕ
nanoseconds = 1000000000

abbrev pub max_duration : ℕ
max_duration = 2 ^ 63 - 1

-- `retryAfterDelay` in nanoseconds: a number of seconds, or the time until a date; `parse_time` is
-- http.ParseTime, and a Sub of two times stays within a Duration.
unfoldable pub retry_after_delay : (Bytes → Option ℕ) → Bytes → ℕ → Option ℕ
unfolding trim_space bytes_beq read_decimal
retry_after_delay parse_time header now =
    let value = trim_space header in
    if not (value == []) && all is_digit value
    then elim (read_decimal value) [
      | none ↦ none
      | some seconds ↦
          if ltb (max_duration / nanoseconds) seconds then none else some (seconds * nanoseconds)
    ]
    else elim (parse_time value) [ none ↦ none | some at ↦ some (min max_duration (at - now)) ]

pub record Response : Type 0 where
  pub status_code : ℕ
  pub retry_after : Bytes
  pub body : Bytes

-- A request's body: none, one that GetBody can give again, or one that can be read once.
pub data RequestBody : Type 0 where
  no_body replayable read_once : RequestBody

-- What the round trip meets at its attempts: the answers, the times at which they are looked at,
-- whether the request's context ends during the wait, and whether GetBody fails after it.
pub record Server {ℓ} (E : Type ℓ) : Type ℓ where
  pub answers : ℕ → Result E Response
  pub now : ℕ → ℕ
  pub cancelled : ℕ → Bool
  pub body_lost : ℕ → Bool

pub data Outcome {ℓ} (E : Type ℓ) : Type ℓ where
  response : Response → Outcome E
  transport_error : E → Outcome E
  unauthorized : Response → Outcome E
  context_done : Outcome E
  no_replay : Outcome E

pub record Trip {ℓ} (E : Type ℓ) : Type ℓ where
  pub outcome : Outcome E
  pub requests : ℕ
  pub sleeps : List ℕ

abbrev pub is_read_once : RequestBody → Bool
is_read_once no_body = false
is_read_once replayable = false
is_read_once read_once = true

abbrev pub is_replayable : RequestBody → Bool
is_replayable no_body = false
is_replayable replayable = true
is_replayable read_once = false

module _ {ℓ} {E : Type ℓ} (parse_time : Bytes → Option ℕ) (server : Server E)
    (body : RequestBody) where
  -- The loop from one attempt on; `none` when the fuel is out.
  unfoldable pub round_trip_from : ℕ → ℕ → List ℕ → Option (Trip E)
  unfolding retry_after_delay
  round_trip_from zero attempt sleeps = none
  round_trip_from (suc fuel) attempt sleeps =
      let done : Outcome E → Option (Trip E) =
        λ o. some (record { outcome = o; requests = attempt + 1; sleeps = sleeps }) in
      elim (server.answers attempt) [
        | err e ↦ done (transport_error e)
        | ok resp ↦ elim (resp.status_code == 401) [
          | true ↦ done (unauthorized resp)
          | false ↦ elim (not (resp.status_code == 503) || leb 4 attempt) [
            | true ↦ done (response resp)
            | false ↦ elim (retry_after_delay parse_time resp.retry_after (server.now attempt)) [
              | none ↦ done (response resp)
              | some delay ↦ elim (is_read_once body) [
                | true ↦ done (response resp)
                | false ↦ elim (server.cancelled attempt) [
                  | true ↦ done context_done
                  | false ↦ elim (is_replayable body && server.body_lost attempt) [
                    | true ↦ some (record {
                      outcome = no_replay;
                      requests = attempt + 1;
                      sleeps = sleeps ++ (delay ∷ []);
                    })
                    | false ↦ round_trip_from fuel (attempt + 1) (sleeps ++ (delay ∷ []))
                  ]
                ]
              ]
            ]
          ]
        ]
      ]

  -- `Client.RoundTrip`
  unfoldable pub round_trip_client : Option (Trip E)
  unfolding round_trip_from
  round_trip_client = round_trip_from 5 0 []
