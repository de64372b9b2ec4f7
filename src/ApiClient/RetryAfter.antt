-- ===== src/ApiClient/RetryAfter.antt =====
-- When the round trip repeats a request, and how it ends.
use rwx.Prelude.{
  ℕ, zero, suc, ◌+◌, ◌≤◌, true, false, not, ◌&&◌, ◌||◌, Option, none, some, Option-cases,
  Bool-cases, List, [], ◌∷◌, ◌++◌, append_assoc, append-nil, ◌==◌, nat_eq, Bytes, length, leb,
  if◌then◌else◌, ◌≡◌, refl, sym, subst, ◌∙◌, inl, inr, arith,
}
use rwx.Prelude.Result.{ok, err, Result-cases}
use rwx.ApiClient.{
  RequestBody, Server, Outcome, response, transport_error, unauthorized, context_done, no_replay,
  Trip, is_read_once, is_replayable, retry_after_delay, round_trip_from, round_trip_client,
}

module _ {ℓ} {E : Type ℓ} (parse_time : Bytes → Option ℕ) (server : Server E)
    (body : RequestBody) where
  -- After which time the answer asks for the request again: a 503 with a time in Retry-After, to one
  -- of the first four requests, whose body can be sent again.
  unfoldable pub asked_after : ℕ → Option ℕ
  asked_after attempt = elim (server.answers attempt) [
    | err e ↦ none
    | ok resp ↦
        if not (resp.status_code == 503) || leb 4 attempt || is_read_once body
        then none
        else retry_after_delay parse_time resp.retry_after (server.now attempt)
  ]

  -- An answer that does not ask for it, as the caller sees it.
  unfoldable pub plain_outcome : ℕ → Outcome E
  plain_outcome attempt = elim (server.answers attempt) [
    | err e ↦ transport_error e
    | ok resp ↦ if resp.status_code == 401 then unauthorized resp else response resp
  ]

  -- How the round trip ends at an attempt, after its sleeps.
  pub data Ends (attempt : ℕ) (sleeps : List ℕ) (trip : Trip E) : Type ℓ where
    answered :
        asked_after attempt ≡ none
        → trip ≡ record { outcome = plain_outcome attempt; requests = attempt + 1; sleeps = sleeps }
        → Ends attempt sleeps trip
    stopped :
        (delay : ℕ)
        → asked_after attempt ≡ some delay
        → server.cancelled attempt ≡ true
        → trip ≡ record { outcome = context_done; requests = attempt + 1; sleeps = sleeps }
        → Ends attempt sleeps trip
    lost :
        (delay : ℕ)
        → asked_after attempt ≡ some delay
        → (is_replayable body && server.body_lost attempt) ≡ true
        → trip
          ≡ record { outcome = no_replay; requests = attempt + 1; sleeps = sleeps ++ (delay ∷ []) }
        → Ends attempt sleeps trip

  -- The attempts from one on that are repeated, each after its delay.
  pub data Repeats : ℕ → List ℕ → Type 0 where
    last : {n : ℕ} → Repeats n []
    again :
        {n delay : ℕ} {delays : List ℕ}
        → asked_after n ≡ some delay
        → server.cancelled n ≡ false
        → (is_replayable body && server.body_lost n) ≡ false
        → Repeats (n + 1) delays
        → Repeats n (delay ∷ delays)

  asked_after-bound : (n delay : ℕ) → asked_after n ≡ some delay → n ≤ 3
  unfolding asked_after
  asked_after-bound n delay h = elim (Result-cases (server.answers n)) [
    | inl (resp, e) ↦ ground (arith, e, h)
    | inr (e', e) ↦ ground (arith, e, h)
  ]

  from-none :
      (fuel n : ℕ) (before : List ℕ)
      → asked_after n ≡ none
      → round_trip_from parse_time server body (suc fuel) n before
        ≡ some (record { outcome = plain_outcome n; requests = n + 1; sleeps = before })
  unfolding round_trip_from asked_after plain_outcome
  from-none fuel n before h = elim (Result-cases (server.answers n)) [
    | inl (resp, e) ↦ ground (arith, e, h)
    | inr (e', e) ↦ ground (arith, e, h)
  ]

  from-some :
      (fuel n : ℕ) (before : List ℕ) {delay : ℕ}
      → asked_after n ≡ some delay
      → round_trip_from parse_time server body (suc fuel) n before ≡ (
          if server.cancelled n
          then some (record { outcome = context_done; requests = n + 1; sleeps = before })
          else if is_replayable body && server.body_lost n
          then some
              (record { outcome = no_replay; requests = n + 1; sleeps = before ++ (delay ∷ []) })
          else round_trip_from parse_time server body fuel (n + 1) (before ++ (delay ∷ [])))
  unfolding round_trip_from asked_after
  from-some fuel n before h = elim (Result-cases (server.answers n)) [
    | inl (resp, e) ↦ ground (arith, e, h)
    | inr (e', e) ↦ ground (arith, e, h)
  ]

  -- What is to be shown of the loop from an attempt on.
  Ended : ℕ → List ℕ → Option (Trip E) → Type ℓ
  Ended n before result =
      (delays : List ℕ) × Repeats n delays
      × (trip : Trip E) × (result ≡ some trip)
      × Ends (n + length delays) (before ++ delays) trip

  moved : {n m : ℕ} {s t : List ℕ} {trip : Trip E} → n ≡ m → s ≡ t → Ends n s trip → Ends m t trip
  moved {n} {m} {s} {t} {trip} e d h = subst (λ k. Ends k t trip) e (subst (λ l. Ends n l trip) d h)

  here :
      (n : ℕ) (before : List ℕ) (result : Option (Trip E)) (trip : Trip E)
      → result ≡ some trip
      → Ends n before trip
      → Ended n before result
  unfolding Ended
  here n before result trip e h =
      ([], last, trip, e, moved (omega arith) (sym (append-nil before)) h)

  later :
      (n : ℕ) (before : List ℕ) (result : Option (Trip E)) {delay : ℕ}
      → asked_after n ≡ some delay
      → server.cancelled n ≡ false
      → (is_replayable body && server.body_lost n) ≡ false
      → Ended (n + 1) (before ++ (delay ∷ [])) result
      → Ended n before result
  unfolding Ended
  later n before result {delay} a c l (delays, r, trip, e, h) = (
    delay ∷ delays,
    again a c l r,
    trip,
    e,
    moved (omega arith) (append_assoc before (delay ∷ []) delays) h,
  )

  from-Ended :
      (fuel n : ℕ) (before : List ℕ)
      → n + fuel ≡ 5
      → n ≤ 4
      → Ended n before (round_trip_from parse_time server body fuel n before)
  from-Ended zero n before h b = absurd (omega (arith, h, b))
  from-Ended (suc fuel) n before h b = elim (Option-cases (asked_after n)) [
    | inl a ↦ here n before _ _ (from-none fuel n before a) (answered a refl)
    | inr (delay, a) ↦ elim (Bool-cases (server.cancelled n)) [
      | inl c ↦
          here n before _ _ (from-some fuel n before a ∙ ground (arith, c)) (stopped delay a c refl)
      | inr c ↦ elim (Bool-cases (is_replayable body && server.body_lost n)) [
        | inl l ↦
            here n before _ _ (from-some fuel n before a ∙ ground (arith, c, l))
              (lost delay a l refl)
        | inr l ↦
            let rest =
              from-Ended fuel (n + 1) (before ++ (delay ∷ [])) (omega (arith, h))
                (omega (arith, asked_after-bound n delay a)) in
            subst (Ended n before) (sym (from-some fuel n before a ∙ ground (arith, c, l))) (
              later n before
                (round_trip_from parse_time server body fuel (n + 1) (before ++ (delay ∷ []))) a c l
                rest)
      ]
    ]
  ]

  Repeats-bound : {n : ℕ} {delays : List ℕ} → n ≤ 4 → Repeats n delays → n + length delays ≤ 4
  Repeats-bound b last = omega (arith, b)
  Repeats-bound {n} b (again {delay} {delays} a c l r) =
      let rest = Repeats-bound (omega (arith, asked_after-bound n delay a)) r in omega (arith, rest)

  bound : (delays : List ℕ) → Repeats 0 delays → length delays ≤ 4
  bound delays r = let b = Repeats-bound (omega arith) r in omega (arith, b)

  -- The round trip always ends, after at most five requests. Every request before the last was
  -- answered by a 503 with a usable Retry-After, its body could be sent again and its context was not
  -- done, and the client slept exactly the time asked for before it sent the next one. The last answer
  -- is returned as it is, a 401 as an error, where it asks for no repetition or the fifth request is
  -- reached; otherwise the context ended during the wait, or the body could not be had again after it.
  pub round_trip_client-Ends :
      (delays : List ℕ) × Repeats 0 delays
      × (length delays ≤ 4)
      × (trip : Trip E) × (round_trip_client parse_time server body ≡ some trip)
      × Ends (length delays) delays trip
  unfolding round_trip_client Ended
  round_trip_client-Ends =
      let (delays, r, trip, e, h) = from-Ended 5 0 [] refl (omega arith) in
      (delays, r, bound delays r, trip, e, moved (omega arith) refl h)
