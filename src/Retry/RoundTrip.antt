-- ===== src/Retry/RoundTrip.antt =====
-- The retrying round tripper: how many requests it makes, when, and what it returns.
use rwx.Prelude.{
  ℕ, zero, suc, ◌+◌, ◌*◌, ◌^◌, ◌≤◌, ◌<◌, min, Bool, true, false, ◌&&◌, Option, none, some, List, [],
  ◌∷◌, leb, if◌then◌else◌, ◌≡◌, refl, ◌⊎◌, inl, inr, Bool-cases, arith, ◌∙◌, subst,
}
use native.Mathlib.Decide.{dec_lt, ℕ_discrete}
use rwx.Prelude.Result.{Result, ok, err, Result-cases}
use rwx.Errors.{GoError, Target, is, network_transient}
use rwx.Errors.Sentinels.{is-mark}
use rwx.Retry.{
  Backoff, new_backoff, second, record_failure, is_transient, Trip, round_trip_loop, round_trip,
  exhausted,
}
use rwx.Retry.Bounds.{backoff_interval-min}

-- the sleeps before request `n`, the last one first: 1s, 2s, 4s, then 5s
abbrev pub sleeps_before : ℕ → List ℕ
sleeps_before zero = []
sleeps_before (suc n) = min (second * 2 ^ n) (5 * second) ∷ sleeps_before n

backoff_at : ℕ → Backoff
backoff_at n = record new_backoff { consecutive_failures = n }

record_failure_at :
    (n : ℕ)
    → record_failure (backoff_at n) ≡ (
      backoff_at (n + 1),
      if leb 5 (n + 1) then none else some (min (second * 2 ^ n) (5 * second)),
    )
unfolding record_failure backoff_at
record_failure_at n = ground (arith, backoff_interval-min (5 * second) n (1 * second))

is-exhausted :
    (b : Backoff) (e : GoError) → is (exhausted b e) (Target.sentinel network_transient) ≡ true
unfolding exhausted
is-exhausted b e = (is-mark _ network_transient (Target.sentinel network_transient)).1

module _ {R : Type 0} (inner : ℕ → Result GoError R) (is_get : Bool) where
  abbrev retries : GoError → Bool
  retries e = is_get && is_transient (some e)

  -- Request `k` failed with a transient error, and was a GET.
  abbrev pub IsRetried : ℕ → Type 0
  IsRetried k = (e : GoError) × (inner k ≡ err e) × (retries e ≡ true)

  -- How the last request ends the trip: its response, its error if that is not to be retried, or
  -- after the fifth request an error that is marked as transient.
  abbrev pub Ends : ℕ → Result GoError R → Type 0
  Ends last result =
      ((r : R) × (inner last ≡ ok r) × (result ≡ ok r))
      ⊎ ((e : GoError) × (inner last ≡ err e) × (retries e ≡ false) × (result ≡ err e))
      ⊎ ((e e' : GoError) × (inner last ≡ err e)
          × (retries e ≡ true)
          × (last ≡ 4)
          × (result ≡ err e')
          × (is e' (Target.sentinel network_transient) ≡ true))

  pub record Outcome (n : ℕ) (t : Trip R) : Type 0 where
    pub last : ℕ
    pub from_first : n ≤ last
    pub at_most_five : last < 5
    pub counted : t.requests ≡ last + 1
    pub slept : t.sleeps ≡ sleeps_before last
    pub retried : (k : ℕ) → n ≤ k → k < last → IsRetried k
    pub ends : Ends last t.result

  abbrev loop_at : ℕ → ℕ → Option (Trip R)
  loop_at fuel n = round_trip_loop inner is_get fuel (backoff_at n) n (sleeps_before n)

  -- the trip that ends at request `n`
  ended : (n : ℕ) (result : Result GoError R) → Trip R
  ended n result = record { result = result; requests = n + 1; sleeps = sleeps_before n }

  ended-Outcome :
      (n : ℕ) (result : Result GoError R) → n < 5 → Ends n result → Outcome n (ended n result)
  unfolding ended
  ended-Outcome n result h e = record {
    last = n;
    from_first = omega arith;
    at_most_five = h;
    counted = refl;
    slept = refl;
    retried = λ k a b. absurd (omega arith);
    ends = e;
  }

  loop-ok : (fuel n : ℕ) (r : R) → inner n ≡ ok r → loop_at (suc fuel) n ≡ some (ended n (ok r))
  unfolding round_trip_loop ended
  loop-ok fuel n r e = ground arith

  loop-err :
      (fuel n : ℕ) (e : GoError)
      → inner n ≡ err e
      → retries e ≡ false
      → loop_at (suc fuel) n ≡ some (ended n (err e))
  unfolding round_trip_loop ended
  loop-err fuel n e p h = ground arith

  loop-exhausted :
      (fuel : ℕ) (e : GoError)
      → inner 4 ≡ err e
      → retries e ≡ true
      → loop_at (suc fuel) 4 ≡ some (ended 4 (err (exhausted (backoff_at 5) e)))
  unfolding round_trip_loop ended
  loop-exhausted fuel e p h = ground (arith, record_failure_at 4)

  loop-again :
      (fuel n : ℕ) (e : GoError)
      → n < 4
      → inner n ≡ err e
      → retries e ≡ true
      → loop_at (suc fuel) n ≡ loop_at fuel (suc n)
  unfolding round_trip_loop
  loop-again fuel n e l p h = ground (arith, record_failure_at n)

  extend : (n : ℕ) (t : Trip R) → IsRetried n → Outcome (suc n) t → Outcome n t
  extend n t here o = record {
    last = o.last;
    from_first = let h = o.from_first in omega arith;
    at_most_five = o.at_most_five;
    counted = o.counted;
    slept = o.slept;
    retried = λ k a b. elim (ℕ_discrete n k) [
      | yes same ↦ subst IsRetried same here
      | no ne ↦ o.retried k (omega arith) b
    ];
    ends = o.ends;
  }

  loop-Outcome :
      (fuel n : ℕ) → fuel + n ≡ 5 → n < 5 → (t : Trip R) × (loop_at fuel n ≡ some t) × Outcome n t
  loop-Outcome zero n f h = absurd (omega arith)
  loop-Outcome (suc fuel) n f h = elim (Result-cases (inner n)) [
    | inl (r, e) ↦ (ended n (ok r), loop-ok fuel n r e, ended-Outcome n (ok r) h (inl (r, e, refl)))
    | inr (e, p) ↦ elim (Bool-cases (retries e)) [
      | inr stop ↦ (
        ended n (err e),
        loop-err fuel n e p stop,
        ended-Outcome n (err e) h (inr (inl (e, p, stop, refl))),
      )
      | inl again ↦ elim (dec_lt n 4) [
        | yes more ↦
            let (t, run, o) = loop-Outcome fuel (suc n) (omega arith) (omega arith) in
            (t, loop-again fuel n e more p again ∙ run, extend n t (e, p, again) o)
        | no enough ↦
            let four : n ≡ 4 = omega arith in
            let e' = exhausted (backoff_at 5) e in
            (
              ended n (err e'),
              rw four (loop-exhausted fuel e (rw four at p) again),
              ended-Outcome n (err e') h
                  (inr (inr (e, e', p, again, four, refl, is-exhausted (backoff_at 5) e))),
            )
      ]
    ]
  ]

  -- A round trip always ends, after one to five requests: every request but the last was a GET that
  -- failed with a transient error, the sleeps between them are 1s, 2s, 4s and 5s, and the result is
  -- the last request's response, its error if that may not be retried, or, after five, an error
  -- that is marked as a transient network error.
  pub round_trip-Outcome : (t : Trip R) × (round_trip inner is_get ≡ some t) × Outcome 0 t
  unfolding round_trip backoff_at
  round_trip-Outcome = loop-Outcome 5 0 refl (omega arith)
