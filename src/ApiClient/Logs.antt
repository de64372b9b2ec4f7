-- ===== src/ApiClient/Logs.antt =====
-- When the download of logs ends, and how.
use rwx.Prelude.{
  ℕ, zero, suc, ◌+◌, ◌*◌, ◌/◌, ◌≤◌, ◌<◌, ◌&&◌, ◌||◌, Option, none, some, Option-cases, List, [],
  ◌∷◌, ◌++◌, Bytes, leb, ltb, if◌then◌else◌, ◌≡◌, refl, ap, ◌∙◌, inl, inr, arith,
}
use rwx.ApiClient.Download.{
  LogAnswer, not_made, no_answer, answer, LogFailure, request_failed, server_said, LogOutcome, logs,
  unreadable_logs, no_request, refused, failed_after, Downloaded, next_backoff, error_message,
  download_from, download_logs,
}

-- The backoff after each attempt: 1s, 2s, 4s, and 5s from then on.
unfoldable pub backoff_at : ℕ → ℕ
backoff_at zero = 1000
backoff_at (suc zero) = 2000
backoff_at (suc (suc zero)) = 4000
backoff_at (suc (suc (suc n))) = 5000

next_backoff-backoff_at : (n : ℕ) → next_backoff (backoff_at n) ≡ backoff_at (suc n)
unfolding next_backoff backoff_at
next_backoff-backoff_at zero = refl
next_backoff-backoff_at (suc zero) = refl
next_backoff-backoff_at (suc (suc zero)) = refl
next_backoff-backoff_at (suc (suc (suc n))) = refl

-- The backoffs after the first `k` attempts.
unfoldable pub backoffs : ℕ → List ℕ
unfolding backoff_at
backoffs zero = []
backoffs (suc k) = backoffs k ++ (backoff_at k ∷ [])

-- A clock that never runs backwards and shows at least the time slept.
abbrev pub IsClock : (ℕ → ℕ) → Type 0
IsClock elapsed = (n : ℕ) → elapsed n + backoff_at n ≤ elapsed (suc n)

pub backoff_at-bounds : (n : ℕ) → (1000 ≤ backoff_at n) × (backoff_at n ≤ 5000)
unfolding backoff_at
backoff_at-bounds zero = (omega arith, omega arith)
backoff_at-bounds (suc zero) = (omega arith, omega arith)
backoff_at-bounds (suc (suc zero)) = (omega arith, omega arith)
backoff_at-bounds (suc (suc (suc n))) = (omega arith, omega arith)

clock-bound : (elapsed : ℕ → ℕ) → IsClock elapsed → (n : ℕ) → 1000 * n ≤ elapsed n
clock-bound elapsed c zero = omega arith
clock-bound elapsed c (suc n) = omega (arith, c n, clock-bound elapsed c n, (backoff_at-bounds n).0)

module _ {ℓ} {E : Type ℓ} (extract : Bytes → Bytes) (answers : ℕ → LogAnswer E) (elapsed : ℕ → ℕ)
    (duration : ℕ) where
  -- The failure that may be tried again: no answer, or a status that is neither 2xx nor 4xx.
  unfoldable pub may_retry : LogAnswer E → Option (LogFailure E)
  may_retry (not_made e) = none
  may_retry (no_answer e) = some (request_failed e)
  may_retry (answer resp) =
      if leb 200 resp.status_code && ltb resp.status_code 300
        || leb 400 resp.status_code && ltb resp.status_code 500
      then none
      else some (server_said (error_message extract answers elapsed duration resp))

  -- What an answer gives that is not tried again.
  unfoldable pub final : LogAnswer E → LogOutcome E
  final (not_made e) = no_request e
  final (no_answer e) = unreadable_logs
  final (answer resp) =
      if leb 200 resp.status_code && ltb resp.status_code 300
      then (elim resp.body [ some body ↦ logs body | none ↦ unreadable_logs ])
      else refused (error_message extract answers elapsed duration resp)

  -- How the download ends at an attempt.
  unfoldable pub ending : ℕ → Option (LogOutcome E)
  unfolding may_retry final
  ending n = elim (may_retry (answers n)) [
    | none ↦ some (final (answers n))
    | some failure ↦ if leb duration (elapsed n) then some (failed_after (n + 1) failure) else none
  ]

  from-ending-some :
      (fuel n b : ℕ) (sleeps : List ℕ) {o : LogOutcome E}
      → ending n ≡ some o
      → download_from extract answers elapsed duration (suc fuel) n b sleeps
        ≡ some (record { outcome = o; sleeps = sleeps })
  unfolding download_from ending may_retry final
  from-ending-some fuel n b sleeps h = ground (arith, h)

  from-ending-none :
      (fuel n b : ℕ) (sleeps : List ℕ)
      → ending n ≡ none
      → download_from extract answers elapsed duration (suc fuel) n b sleeps
        ≡ download_from extract answers elapsed duration fuel
            (n + 1)
            (next_backoff b)
            (sleeps ++ (b ∷ []))
  unfolding download_from ending may_retry final
  from-ending-none fuel n b sleeps h = ground (arith, h)

  next_round :
      (fuel n : ℕ)
      → download_from extract answers elapsed duration fuel
          (n + 1)
          (next_backoff (backoff_at n))
          (backoffs n ++ (backoff_at n ∷ []))
        ≡ download_from extract answers elapsed duration fuel
            (suc n)
            (backoff_at (suc n))
            (backoffs (suc n))
  unfolding backoffs
  next_round fuel n =
      let at : n + 1 ≡ suc n = omega arith in
      ap
        (λ m.
          download_from extract answers elapsed duration fuel m (next_backoff (backoff_at n))
            (backoffs n ++ (backoff_at n ∷ [])))
        at
      ∙ ap
          (λ b.
            download_from extract answers elapsed duration fuel (suc n) b
              (backoffs n ++ (backoff_at n ∷ [])))
          (next_backoff-backoff_at n)

  -- The first attempts all failed in a way that may be tried again, while there was time.
  pub data AllRetried : ℕ → Type ℓ where
    no_attempt : AllRetried zero
    one_more : {n : ℕ} → AllRetried n → ending n ≡ none → AllRetried (suc n)

  ending-none-lt : (n : ℕ) → ending n ≡ none → elapsed n < duration
  unfolding ending
  ending-none-lt n h = elim (Option-cases (may_retry (answers n))) [
    | inl e ↦ ground (arith, e, h)
    | inr (failure, e) ↦ ground (arith, e, h)
  ]

  Ended : ℕ → ℕ → Option (Downloaded E) → Type ℓ
  Ended n fuel result =
      (k : ℕ) × (k + 1 ≤ n + fuel)
      × AllRetried k
      × (o : LogOutcome E) × (ending k ≡ some o)
      × (result ≡ some (record { outcome = o; sleeps = backoffs k }))

  out_of_time : (n : ℕ) → IsClock elapsed → AllRetried n → duration + 1000 ≤ 1000 * n → ⊥
  out_of_time zero c r h = omega (arith, h)
  out_of_time (suc n) c (one_more r e) h =
      omega (arith, h, ending-none-lt n e, clock-bound elapsed c n)

  from-Ended :
      (fuel n : ℕ)
      → IsClock elapsed
      → AllRetried n
      → duration + 1000 ≤ 1000 * (n + fuel)
      → Ended n fuel
          (download_from extract answers elapsed duration fuel n (backoff_at n) (backoffs n))
  unfolding Ended
  from-Ended zero n c r h = absurd (out_of_time n c r (omega (arith, h)))
  from-Ended (suc fuel) n c r h = elim (Option-cases (ending n)) [
    | inr (o, e) ↦ (n, omega arith, r, o, e, from-ending-some fuel n (backoff_at n) (backoffs n) e)
    | inl e ↦
        let (k, b, r', o, d, q) = from-Ended fuel (suc n) c (one_more r e) (omega (arith, h)) in
        (
          k,
          omega (arith, b),
          r',
          o,
          d,
          from-ending-none fuel n (backoff_at n) (backoffs n) e ∙ next_round fuel n ∙ q,
        )
  ]

  -- With a clock that shows at least the time slept, the download always ends, within one attempt for
  -- each second of the retry duration and two more. It ends at the first attempt that the server
  -- answers by a 2xx, whose body is returned, or by a 4xx, whose message is the error, or whose request
  -- cannot be made, or that fails otherwise when the retry duration is over; every attempt before it failed without an answer or
  -- by another status while there was time, and the sleeps between them are 1s, 2s, 4s and then 5s.
  pub download_logs-AllRetried :
      IsClock elapsed
      → (k : ℕ) × (k ≤ duration / 1000 + 1)
        × AllRetried k
        × (o : LogOutcome E) × (ending k ≡ some o)
        × (download_logs extract answers elapsed duration (duration / 1000 + 2)
            ≡ some (record { outcome = o; sleeps = backoffs k }))
  unfolding download_logs Ended backoff_at backoffs
  download_logs-AllRetried c =
      let (k, b, r, o, e, q) = from-Ended (duration / 1000 + 2) 0 c no_attempt (omega arith) in
      (k, omega (arith, b), r, o, e, q)
