-- ===== src/Artifacts/Ready.antt =====
-- What the server answers about artifacts, and the wait until they are ready: the loops of
-- `DownloadArtifact` and `DownloadAllArtifacts` (internal/cli/service_artifacts.go).
use rwx.Prelude.{
  ℕ, zero, suc, ◌+◌, ◌≤◌, ltb, Bool, false, not, Option, none, some, List, ◌∷◌, Bytes,
  if◌then◌else◌,
}
use rwx.Prelude.Result.{Result, ok, err}
use rwx.Prelude.Traced.{◌>>=◌, ◌>>◌, return, log, on_result}
use rwx.Errors.{GoError}
use rwx.Artifacts.Extract.{ArtifactEvent, asked, slept, TarEntry, Extraction}

-- `PollingResult`
pub record Polling : Type 0 where
  pub completed : Bool
  pub backoff_ms : Option ℕ

-- `ArtifactDownloadRequestResult`, as far as it is read.
pub record DownloadRequest : Type 0 where
  pub key : Bytes
  pub kind : Bytes
  pub filename : Bytes
  pub size_in_bytes : ℕ

-- An answer of the server: the hint to ask again, if there is one, and what was asked for.
abbrev pub Answer : Type 0 → Type 0
Answer A = Result GoError (Option Polling × A)

-- The server and the clock, in milliseconds, as they answer after what was done before; what downloads
-- give does not depend on their order. `read_tar` is archive/tar.
pub record Remote : Type 0 where
  pub one_by_task_key : List ArtifactEvent → Bytes → Bytes → Bytes → Answer DownloadRequest
  pub one_by_task_id : List ArtifactEvent → Bytes → Bytes → Answer DownloadRequest
  pub all_by_task_key : List ArtifactEvent → Bytes → Bytes → Answer (List DownloadRequest)
  pub all_by_task_id : List ArtifactEvent → Bytes → Answer (List DownloadRequest)
  pub clock : List ArtifactEvent → ℕ
  pub download : DownloadRequest → Result GoError Bytes
  pub read_tar : Bytes → List (Result GoError TarEntry)

unfoldable pub artifact_not_ready : Option Polling → Bool
artifact_not_ready none = false
artifact_not_ready (some p) = not p.completed

-- In milliseconds; `artifactDefaultBackoff` is a second.
unfoldable pub artifact_poll_backoff : Option Polling → ℕ
artifact_poll_backoff none = 1000
artifact_poll_backoff (some p) = elim p.backoff_ms [
  | none ↦ 1000
  | some ms ↦ if ltb 0 ms then ms else 1000
]

module _ {A : Type 0} (r : Remote) (request : List ArtifactEvent → Answer A) where
  unfoldable pub ask_server : Extraction (Answer A)
  ask_server h = (request h, asked ∷ h)

  unfoldable pub time_now : Extraction ℕ
  time_now h = (r.clock h, h)

  -- The last answer, which may still ask to wait if the deadline has passed; `none` where the rounds are
  -- used up.
  unfoldable pub await_loop : ℕ → ℕ → Extraction (Option (Answer A))
  await_loop zero deadline = return none
  await_loop (suc rounds) deadline = do
    answer ← ask_server
    on_result answer (λ e. return (some (err e)))
        (λ found. if not (artifact_not_ready found.0) then return (some (ok found)) else (do
          time ← time_now
          if ltb deadline time
              then return (some (ok found))
              else (do log (slept (artifact_poll_backoff found.0)); await_loop rounds deadline)))

  -- `artifactReadyMaxWait` is 30 seconds.
  unfoldable pub await_artifacts : Extraction (Option (Answer A))
  await_artifacts = do start ← time_now; await_loop 30002 (start + 30000)

-- The clock never goes back, and a sleep lasts at least as long as it is asked to.
pub record ClockAdvances (r : Remote) : Type 0 where
  pub monotone : (h : List ArtifactEvent) (e : ArtifactEvent) → r.clock h ≤ r.clock (e ∷ h)
  pub sleeps : (h : List ArtifactEvent) (ms : ℕ) → r.clock h + ms ≤ r.clock (slept ms ∷ h)
