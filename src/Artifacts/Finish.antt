-- ===== src/Artifacts/Finish.antt =====
-- Both downloads end.
use rwx.Prelude.{
  ℕ, zero, suc, ◌+◌, ◌-◌, ◌<◌, ltb, Option, none, some, List, ◌∷◌, Bytes, Bool-cases, Option-cases,
  subst, sym, inl, inr, ◌≡◌, refl, not, arith,
}
use rwx.Prelude.Result.{ok, err, Result-cases}
use rwx.Prelude.Traced.{◌>>=◌, ◌>>◌, return, log, on_error, on_result}
use rwx.Prelude.Gives.{Gives, Gives-after, gives_rules}
use rwx.Artifacts.Distinct.{output_names-distinct}
use rwx.Artifacts.Extract.{
  ArtifactEvent, asked, slept, Disk, Extraction, artifact_output_dirs, prepare_directories,
}
use rwx.Artifacts.Ready.{
  Polling, DownloadRequest, Answer, Remote, ClockAdvances, artifact_not_ready,
  artifact_poll_backoff, ask_server, time_now, await_loop, await_artifacts,
}
use rwx.Artifacts.Download.{DownloadConfig, DownloadOutcome, with_telemetry}
use rwx.Artifacts.DownloadAll.{download_found, download_all, download_all_artifacts}
use rwx.Artifacts.DownloadOne.{download_artifact, download_one_artifact}

-- The rounds were not used up.
pub record IsSome {ℓ} {V : Type ℓ} (o : Option V) : Type ℓ where
  pub value : V
  pub is_value : o ≡ some value

some-IsSome : {V : Type 0} (v : V) → IsSome (some v)
some-IsSome v = record { value = v; is_value = refl }

backoff-positive : (p : Option Polling) → 0 < artifact_poll_backoff p
unfolding artifact_poll_backoff
backoff-positive none = omega arith
backoff-positive (some p) = elim (Option-cases p.backoff_ms) [
  | inl e ↦ ground (arith, e)
  | inr (ms, e) ↦ ground (arith, e)
]

module _ {A : Type 0} (r : Remote) (request : List ArtifactEvent → Answer A)
    (clock : ClockAdvances r) where
  await_loop-IsSome :
      (rounds deadline : ℕ) (h : List ArtifactEvent)
      → suc deadline - r.clock h < rounds
      → IsSome (await_loop r request rounds deadline h).0
  unfolding await_loop ◌>>=◌ ◌>>◌ return log on_result time_now ask_server
  await_loop-IsSome zero deadline h l = absurd (omega (arith, l))
  await_loop-IsSome (suc rounds) deadline h l = elim (Result-cases (request h)) [
    | inr (e, failed) ↦ record { value = err e; is_value = simp failed }
    | inl (found, answered) ↦
        let h1 : List ArtifactEvent = asked ∷ h in
        elim (Bool-cases (not (artifact_not_ready found.0))) [
          | inl ready ↦ record { value = ok found; is_value = simp (answered, ready) }
          | inr waits ↦ elim (Bool-cases (ltb deadline (r.clock h1))) [
            | inl late ↦ record { value = ok found; is_value = simp (answered, waits, late) }
            | inr early ↦
                let rest =
                  await_loop-IsSome rounds deadline (slept (artifact_poll_backoff found.0) ∷ h1) (
                    ground (
                      arith,
                      l,
                      early,
                      backoff-positive found.0,
                      clock.monotone h asked,
                      clock.sleeps h1 (artifact_poll_backoff found.0),
                    )) in
                record {
                  value = rest.value;
                  is_value = simp (answered, waits, early, rest.is_value);
                }
          ]
        ]
  ]

  await_artifacts-IsSome : Gives IsSome (await_artifacts r request)
  unfolding await_artifacts ◌>>=◌ time_now
  await_artifacts-IsSome = record {
    at = λ h. await_loop-IsSome 30002 (r.clock h + 30000) h (omega arith);
  }

-- What follows a value that is there.
pub Gives-some :
    {V U : Type 0} (Q : U → Type 0) (m : Extraction (Option V)) (rest : V → Extraction U)
    (otherwise : Extraction U)
    → Gives IsSome m
    → ((v : V) → Gives Q (rest v))
    → Gives Q (m >>= λ o. on_error o rest otherwise)
unfolding on_error
Gives-some Q m rest otherwise f g =
    Gives-after Q IsSome m (λ o. on_error o rest otherwise) f
      (λ o p. subst (λ o. Gives Q (on_error o rest otherwise)) (sym p.is_value) (g p.value))

module _ (d : Disk) (r : Remote) (cfg : DownloadConfig) where
  pub artifact_output_dirs-IsSome :
      (dir : Bytes) (keys : List Bytes) → Gives IsSome (artifact_output_dirs d dir keys)
  unfolding artifact_output_dirs on_error
  artifact_output_dirs-IsSome dir keys =
      let (names, found, _, _, _) = output_names-distinct keys in
      subst
        (λ o. Gives IsSome (
          on_error o (λ names. do dirs ← prepare_directories d dir names; return (some dirs))
            (return none)))
        (sym found) (search (gives_rules, some-IsSome) depth 14 fits 4000)

  download_found-IsSome :
      (requests : List DownloadRequest) → Gives IsSome (download_found d r cfg requests)
  unfolding download_found
  download_found-IsSome requests =
      search (gives_rules, some-IsSome, Gives-some, artifact_output_dirs-IsSome) depth 14 fits 4000

  download_all-IsSome : ClockAdvances r → Gives IsSome (download_all d r cfg)
  unfolding download_all
  download_all-IsSome clock =
      search (gives_rules, some-IsSome, Gives-some, await_artifacts-IsSome, download_found-IsSome)
        depth 20 fits 8000

  download_artifact-IsSome :
      (artifact_key : Bytes)
      → ClockAdvances r
      → Gives IsSome (download_artifact d r cfg artifact_key)
  unfolding download_artifact
  download_artifact-IsSome artifact_key clock =
      search (gives_rules, some-IsSome, Gives-some, await_artifacts-IsSome) depth 20 fits 8000

  with_telemetry-IsSome :
      (m : Extraction (Option DownloadOutcome)) → Gives IsSome m → Gives IsSome (with_telemetry m)
  unfolding with_telemetry
  with_telemetry-IsSome m f = search (gives_rules, some-IsSome, Gives-some) depth 14 fits 4000

  -- With a clock that shows at least the time slept, both downloads always end, whatever the server, the
  -- disk and the archives hold: the wait for the artifacts never uses up its rounds, nor does the search
  -- for the names of their directories.
  pub downloads-IsSome :
      (artifact_key : Bytes) (h : List ArtifactEvent)
      → ClockAdvances r
      → IsSome (download_all_artifacts d r cfg h).0
        × IsSome (download_one_artifact d r cfg artifact_key h).0
  unfolding download_all_artifacts download_one_artifact
  downloads-IsSome artifact_key h clock = (
    (with_telemetry-IsSome (download_all d r cfg) (download_all-IsSome clock)).at h,
    (with_telemetry-IsSome (download_artifact d r cfg artifact_key)
          (download_artifact-IsSome artifact_key clock)).at
        h,
  )
