-- ===== src/RetryRequest/Sending.antt =====
-- internal/cli/service_retry.go: `Retry`, as what it hears from the server and sends, in order.
use rwx.Prelude.{
  ℕ, suc, ◌≤◌, Bool, true, false, ◌&&◌, not, Option, none, some, List, [], ◌∷◌, ◌==◌, bytes_eq,
  bytes_beq, Bytes, if◌then◌else◌, ◌≡◌, refl, subst, sym, inl, inr, Bool-cases, arith,
}
use rwx.Prelude.Result.{Result, ok, err}
use rwx.Prelude.Traced.{Traced, ◌>>=◌, return, on_result}
use rwx.Errors.{GoError}
use rwx.RetryRequest.{
  RetryOptions, RetryConfig, RequestRetryConfig, Refusal, missing_target, api_failed, Picker,
  is_empty, select_retry_request,
}
use rwx.RetryRequest.Allowed.{IsAllowed, select_retry_request-IsAllowed}

-- An error of `RequestRetry`: a `RetryRequestError` with the options of now, or any other.
pub data RequestFailure : Type 0 where
  other : GoError → RequestFailure
  rejected : RetryOptions → RequestFailure

-- How `Retry` fails. `endpoint` explains a rejected request; `raw` passes the rejection on, for JSON.
pub data RetryFailure : Type 0 where
  refused : Refusal → RetryFailure
  request_failed : GoError → RetryFailure
  endpoint : RetryOptions → RequestRetryConfig → RetryFailure
  raw : RetryOptions → RetryFailure

-- What passes between the program and the server: options that the server gives, in an answer or in
-- a rejection, and requests that it is sent.
pub data RetryEvent : Type 0 where
  offered : RetryOptions → RetryEvent
  sent : RequestRetryConfig → RetryEvent

-- the last options that the server gave
abbrev pub latest : List RetryEvent → Option RetryOptions
latest [] = none
latest (offered options ∷ h) = some options
latest (sent request ∷ h) = latest h

abbrev pub IsAllowedBy : Option RetryOptions → RequestRetryConfig → Type 0
IsAllowedBy none request = ⊥
IsAllowedBy (some options) request = IsAllowed options request

-- Each request sent is allowed by the options given last before it, and for the target.
abbrev pub IsSound : RetryConfig → List RetryEvent → Type 0
IsSound cfg [] = Unit
IsSound cfg (offered options ∷ h) = IsSound cfg h
IsSound cfg (sent request ∷ h) =
    IsAllowedBy (latest h) request × (request.target ≡ cfg.target) × IsSound cfg h

abbrev pub count_sent : List RetryEvent → ℕ
count_sent [] = 0
count_sent (offered options ∷ h) = count_sent h
count_sent (sent request ∷ h) = suc (count_sent h)

module _ {R : Type 0} (p : Picker) (stdout_is_tty : Bool)
    (get_retry_options : Bytes → Result GoError RetryOptions)
    (request_retry : List RetryEvent → RequestRetryConfig → Result RequestFailure R) where
  abbrev RetryReply : Type 0
  RetryReply = Traced RetryEvent (Result RetryFailure R)

  -- the options that an answer brings
  heard_options : Result GoError RetryOptions → List RetryEvent → List RetryEvent
  heard_options (ok options) h = offered options ∷ h
  heard_options (err e) h = h

  heard_reply : Result RequestFailure R → List RetryEvent → List RetryEvent
  heard_reply (ok result) h = h
  heard_reply (err (other e)) h = h
  heard_reply (err (rejected now)) h = offered now ∷ h

  -- the calls of the API client
  call_get_retry_options : Bytes → Traced RetryEvent (Result GoError RetryOptions)
  unfolding heard_options
  call_get_retry_options target h =
      (get_retry_options target, heard_options (get_retry_options target) h)

  call_request_retry : RequestRetryConfig → Traced RetryEvent (Result RequestFailure R)
  unfolding heard_reply
  call_request_retry request h =
      (request_retry h request, heard_reply (request_retry h request) (sent request ∷ h))

  unfoldable pub bare : RetryConfig → Bool
  unfolding bytes_beq is_empty
  bare c = c.action == [] && is_empty c.without_tool_cache && c.debug_placement == []

  give_up : RetryConfig → RetryOptions → RequestRetryConfig → RetryFailure
  give_up cfg options request = if cfg.output_json then raw options else endpoint options request

  -- `RetryConfig{Target: cfg.Target}`
  only_target : RetryConfig → RetryConfig
  only_target cfg = record {
    target = cfg.target;
    action = [];
    without_tool_cache = [];
    debug_placement = [];
    output_json = false;
  }

  after_second : RetryConfig → RequestRetryConfig → Result RequestFailure R → RetryReply
  unfolding give_up
  after_second cfg request (ok result) = return (ok result)
  after_second cfg request (err (other e)) = return (err (request_failed e))
  after_second cfg request (err (rejected later)) = return (err (give_up cfg later request))

  send_request : RequestRetryConfig → (Result RequestFailure R → RetryReply) → RetryReply
  unfolding call_request_retry
  send_request request rest = do reply ← call_request_retry request; rest reply

  -- the request chosen anew, from the options given
  send_again : RetryConfig → RetryOptions → RetryReply
  unfolding after_second only_target send_request
  send_again cfg options =
      on_result (select_retry_request p true (only_target cfg) options)
        (λ refusal. return (err (refused refusal)))
        (λ request. send_request request (after_second cfg request))

  -- `options` are those from which the first request was chosen; a rejection brings its own.
  after_first :
      Bool → RetryConfig → RetryOptions → RequestRetryConfig → Result RequestFailure R → RetryReply
  unfolding give_up send_again
  after_first interactive cfg options request (ok result) = return (ok result)
  after_first interactive cfg options request (err (other e)) = return (err (request_failed e))
  after_first interactive cfg options request (err (rejected now)) =
      if interactive && bare cfg && now.retryable && not (is_empty now.actions)
      then send_again cfg now
      else return (err (give_up cfg now request))

  send_first : Bool → RetryConfig → RetryOptions → RetryReply
  unfolding after_first send_request
  send_first interactive cfg options =
      on_result (select_retry_request p interactive cfg options)
        (λ refusal. return (err (refused refusal)))
        (λ request. send_request request (after_first interactive cfg options request))

  unfoldable pub retry : RetryConfig → RetryReply
  unfolding send_first call_get_retry_options bytes_beq
  retry cfg = if cfg.target == [] then return (err (refused missing_target)) else do
    got ← call_get_retry_options cfg.target
    on_result got (λ e. return (err (refused (api_failed e))))
        (λ options. send_first (stdout_is_tty && not cfg.output_json) cfg options)

  abbrev Good : RetryConfig → ℕ → List RetryEvent → Type 0
  Good cfg n h = IsSound cfg h × (count_sent h ≤ n)

  Good-heard :
      (cfg : RetryConfig) (n : ℕ) (reply : Result RequestFailure R) (h : List RetryEvent)
      → Good cfg n h
      → Good cfg n (heard_reply reply h)
  unfolding heard_reply
  Good-heard cfg n (ok result) h g = g
  Good-heard cfg n (err (other e)) h g = g
  Good-heard cfg n (err (rejected now)) h g = g

  -- A choice that is refused sends nothing.
  Good-chosen :
      (cfg : RetryConfig) (n : ℕ) (h : List RetryEvent) (chosen : Result Refusal RequestRetryConfig)
      (rest : RequestRetryConfig → RetryReply)
      → Good cfg n h
      → ((request : RequestRetryConfig) → chosen ≡ ok request → Good cfg n (rest request h).1)
      → Good cfg n (on_result chosen (λ refusal. return (err (refused refusal))) rest h).1
  unfolding on_result return
  Good-chosen cfg n h (err refusal) rest g f = g
  Good-chosen cfg n h (ok request) rest g f = f request refl

  after_second-sent :
      (cfg : RetryConfig) (request : RequestRetryConfig) (reply : Result RequestFailure R)
      (h : List RetryEvent)
      → (after_second cfg request reply h).1 ≡ h
  unfolding after_second return
  after_second-sent cfg request (ok result) h = refl
  after_second-sent cfg request (err (other e)) h = refl
  after_second-sent cfg request (err (rejected later)) h = refl

  send_again-Good :
      (cfg : RetryConfig) (options : RetryOptions) (h : List RetryEvent)
      → latest h ≡ some options
      → Good cfg 1 h
      → Good cfg 2 (send_again cfg options h).1
  unfolding send_again send_request call_request_retry ◌>>=◌ only_target
  send_again-Good cfg options h l (s, few) =
      Good-chosen cfg 2 h _ _ (s, omega (arith, few))
        (λ request c.
          let (allowed, target) =
            select_retry_request-IsAllowed p true (only_target cfg) options c in
          subst (Good cfg 2) (sym (after_second-sent cfg request (request_retry h request) _)) (
            Good-heard cfg 2 (request_retry h request) (sent request ∷ h) (
              (subst (λ o. IsAllowedBy o request) (sym l) allowed, target, s),
              omega (arith, few),
            )))

  after_first-Good :
      (interactive : Bool) (cfg : RetryConfig) (options : RetryOptions)
      (request : RequestRetryConfig) (reply : Result RequestFailure R) (h : List RetryEvent)
      → Good cfg 1 h
      → Good cfg 2 (after_first interactive cfg options request reply (heard_reply reply h)).1
  unfolding after_first heard_reply return
  after_first-Good interactive cfg options request (ok result) h (s, few) = (s, omega (arith, few))
  after_first-Good interactive cfg options request (err (other e)) h (s, few) =
      (s, omega (arith, few))
  after_first-Good interactive cfg options request (err (rejected now)) h (s, few) =
      elim (Bool-cases (interactive && bare cfg && now.retryable && not (is_empty now.actions))) [
        | inl more ↦ rw more (send_again-Good cfg now (offered now ∷ h) refl (s, few))
        | inr stop ↦ rw stop (s, omega (arith, few))
      ]

  send_first-Good :
      (interactive : Bool) (cfg : RetryConfig) (options : RetryOptions)
      → Good cfg 2 (send_first interactive cfg options (offered options ∷ [])).1
  unfolding send_first send_request call_request_retry ◌>>=◌
  send_first-Good interactive cfg options =
      Good-chosen cfg 2 (offered options ∷ []) _ _ (tt, omega arith)
        (λ request c.
          let (allowed, target) = select_retry_request-IsAllowed p interactive cfg options c in
          after_first-Good interactive cfg options request _ (sent request ∷ offered options ∷ [])
            ((allowed, target, tt), omega arith))

  got-Good :
      (cfg : RetryConfig) (got : Result GoError RetryOptions)
      → Good cfg 2
          (on_result got
            (λ e. return (err (refused (api_failed e))))
            (λ options. send_first (stdout_is_tty && not cfg.output_json) cfg options)
            (heard_options got [])).1
  unfolding on_result heard_options return
  got-Good cfg (err e) = (tt, omega arith)
  got-Good cfg (ok options) = send_first-Good _ cfg options

  -- `Retry` sends two requests at most. Each is for the command's target and allowed by the options
  -- that the server gave last before it: for the second request those of the rejection of the
  -- first, whatever the first was chosen from.
  pub retry-IsSound :
      (cfg : RetryConfig) → IsSound cfg (retry cfg []).1 × (count_sent (retry cfg []).1 ≤ 2)
  unfolding retry call_get_retry_options ◌>>=◌ return
  retry-IsSound cfg = elim (Bool-cases (cfg.target == [])) [
    | inl missing ↦ rw missing (tt, omega arith)
    | inr given ↦ rw given (got-Good cfg (get_retry_options cfg.target))
  ]
