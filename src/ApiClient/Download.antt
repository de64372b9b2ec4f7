-- ===== src/ApiClient/Download.antt =====
-- The download of a task's logs, with its retries while the task's server wakes up
-- (internal/api/client.go, DownloadLogs). Times are in milliseconds.
use rwx.Prelude.{
  ℕ, zero, suc, ◌+◌, ◌*◌, true, false, ◌&&◌, Option, none, some, List, [], ◌∷◌, ◌++◌, Bytes, codes,
  ltb, leb, if◌then◌else◌,
}

-- `maxRetryDurationSeconds`, an optional argument
unfoldable pub max_retry_duration : Option ℕ → ℕ
max_retry_duration none = 30000
max_retry_duration (some seconds) = if ltb 0 seconds then seconds * 1000 else 30000

abbrev pub initial_backoff : ℕ
initial_backoff = 1000

unfoldable pub next_backoff : ℕ → ℕ
next_backoff backoff = if ltb 5000 (backoff * 2) then 5000 else backoff * 2

-- A response: a status code, its text, and the body if it can be read.
pub record LogResponse : Type 0 where
  pub status_code : ℕ
  pub status : Bytes
  pub body : Option Bytes

-- What one attempt meets: `http.NewRequest` fails, the request gets no answer, or it gets one.
pub data LogAnswer {ℓ} (E : Type ℓ) : Type ℓ where
  not_made : E → LogAnswer E
  no_answer : E → LogAnswer E
  answer : LogResponse → LogAnswer E

pub data LogFailure {ℓ} (E : Type ℓ) : Type ℓ where
  request_failed : E → LogFailure E
  server_said : Bytes → LogFailure E

pub data LogOutcome {ℓ} (E : Type ℓ) : Type ℓ where
  logs : Bytes → LogOutcome E
  unreadable_logs : LogOutcome E
  no_request : E → LogOutcome E
  refused : Bytes → LogOutcome E
  failed_after : ℕ → LogFailure E → LogOutcome E

pub record Downloaded {ℓ} (E : Type ℓ) : Type ℓ where
  pub outcome : LogOutcome E
  pub sleeps : List ℕ

unfoldable pub read_or_empty : Option Bytes → Bytes
read_or_empty none = []
read_or_empty (some body) = body

module _ {ℓ} {E : Type ℓ} (extract : Bytes → Bytes) (answers : ℕ → LogAnswer E) (elapsed : ℕ → ℕ)
    (duration : ℕ) where
  -- The message for a status that is not a success; `extract` is extractErrorMessage.
  unfoldable pub error_message : LogResponse → Bytes
  unfolding read_or_empty
  error_message resp = elim (extract (read_or_empty resp.body)) [
    | [] ↦ codes "Unable to download logs - " ++ resp.status
    | c ∷ message ↦ c ∷ message
  ]

  -- The loop from the attempt `n` on, the first being 0; `elapsed n` is the time since the start when
  -- it has been answered. `none` when the fuel is out.
  unfoldable pub download_from : ℕ → ℕ → ℕ → List ℕ → Option (Downloaded E)
  unfolding next_backoff error_message
  download_from zero n backoff sleeps = none
  download_from (suc fuel) n backoff sleeps =
      let done : LogOutcome E → Option (Downloaded E) =
        λ o. some (record { outcome = o; sleeps = sleeps }) in
      let retry : LogFailure E → Option (Downloaded E) = λ last_err.
        elim (leb duration (elapsed n)) [
          | true ↦ done (failed_after (n + 1) last_err)
          | false ↦ download_from fuel (n + 1) (next_backoff backoff) (sleeps ++ (backoff ∷ []))
        ] in
      elim (answers n) [
        | not_made e ↦ done (no_request e)
        | no_answer e ↦ retry (request_failed e)
        | answer resp ↦ elim (leb 200 resp.status_code && ltb resp.status_code 300) [
          | true ↦ elim resp.body [ some body ↦ done (logs body) | none ↦ done unreadable_logs ]
          | false ↦ elim (leb 400 resp.status_code && ltb resp.status_code 500) [
            | true ↦ done (refused (error_message resp))
            | false ↦ retry (server_said (error_message resp))
          ]
        ]
      ]

  -- `DownloadLogs`
  unfoldable pub download_logs : ℕ → Option (Downloaded E)
  unfolding download_from
  download_logs fuel = download_from fuel 0 initial_backoff []
