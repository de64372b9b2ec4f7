-- ===== src/RetryRequest/Allowed.antt =====
-- A request that is chosen is one that the server's options allow.
use rwx.Prelude.{
  Bool, true, false, Option, none, some, List, [], ◌∷◌, ◌==◌, bytes_eq, bytes_beq_iff, Bytes, codes,
  All, AnyOf, ◌≡◌, ◌≢◌, refl, ◌⊎◌, inl, inr, Bool-cases, arith, subst,
}
use rwx.Prelude.Result.{ok, Result-cases}
use rwx.RetryRequest.{
  RetryAction, RetryToolCache, RetryDebugOptions, RetryOptions, RetryConfig, RequestRetryConfig,
  Picker, retry_action_available, retry_tool_cache_available, string_available, unique_strings,
  choose_action, asked_action, wanted_action, check_caches, asked_caches, wanted_caches,
  choose_caches, select_retry_debug_options, select_retry_request,
}

abbrev pub IsAction : Bytes → List RetryAction → Type 0
IsAction value = AnyOf (λ a. a.value ≡ value)

abbrev pub IsCache : Bytes → List RetryToolCache → Type 0
IsCache name = AnyOf (λ c. c.name ≡ name)

IsAction-listed :
    (value : Bytes) (l : List RetryAction)
    → retry_action_available value l ≡ true
    → IsAction value l
unfolding retry_action_available
IsAction-listed value [] h = ground arith
IsAction-listed value (a ∷ l) h =
    ground (arith, IsAction-listed value l, bytes_beq_iff a.value value)

IsCache-listed :
    (name : Bytes) (l : List RetryToolCache)
    → retry_tool_cache_available name l ≡ true
    → IsCache name l
unfolding retry_tool_cache_available
IsCache-listed name [] h = ground arith
IsCache-listed name (c ∷ l) h = ground (arith, IsCache-listed name l, bytes_beq_iff c.name name)

string_listed : (v : Bytes) (l : List Bytes) → string_available v l ≡ true → AnyOf (λ x. x ≡ v) l
unfolding string_available
string_listed v [] h = ground arith
string_listed v (x ∷ l) h = ground (arith, string_listed v l, bytes_beq_iff x v)

choose_action-IsAction :
    (p : Picker) (interactive : Bool) (flag : Bytes) (actions : List RetryAction) {action : Bytes}
    → choose_action p interactive flag actions ≡ ok action
    → IsAction action actions
unfolding choose_action
choose_action-IsAction p interactive flag actions {action} e =
    elim (Result-cases (asked_action p interactive (wanted_action flag actions) actions)) [
      | inl (a, asked) ↦ ground (arith, IsAction-listed a actions)
      | inr (x, failed) ↦ absurd (ground arith)
    ]

check_caches-All :
    (names : List Bytes) (caches : List RetryToolCache)
    → check_caches names caches ≡ ok tt
    → All (λ n. IsCache n caches) names
unfolding check_caches
check_caches-All [] caches e = tt
check_caches-All (name ∷ names) caches e =
    elim (Bool-cases (retry_tool_cache_available name caches)) [
      | inl there ↦ (IsCache-listed name caches there, check_caches-All names caches (ground arith))
      | inr missing ↦ absurd (ground arith)
    ]

choose_caches-allowed :
    (p : Picker) (interactive : Bool) (action : Bytes) (flags : List Bytes)
    (caches : List RetryToolCache) {names : List Bytes}
    → choose_caches p interactive action flags caches ≡ ok names
    → All (λ n. IsCache n caches) names × (action ≢ codes "no-tool-cache" → names ≡ [])
unfolding choose_caches
choose_caches-allowed p interactive action flags caches {names} e =
    elim (Bool-cases (action == codes "no-tool-cache")) [
      | inl special ↦
          elim (Result-cases (asked_caches p interactive (wanted_caches flags caches) caches)) [
            | inl (asked, ea) ↦ elim (Result-cases (check_caches asked caches)) [
              | inl (t, ec) ↦
                  let same : asked ≡ names = ground arith in
                  (
                    subst (All (λ n. IsCache n caches)) same (check_caches-All asked caches ec),
                    λ ne. absurd (ne ((bytes_beq_iff action (codes "no-tool-cache")).0 special)),
                  )
              | inr (x, ec) ↦ absurd (ground arith)
            ]
            | inr (x, ea) ↦ absurd (ground arith)
          ]
      | inr other ↦
          let none_named : names ≡ [] = ground arith in (rw none_named tt, λ ne. none_named)
    ]

-- What the server's options allow: the run is retryable, the action and the tool caches are listed,
-- tool caches go with their action alone, and a breakpoint is supported, at a listed placement.
pub record IsAllowed (options : RetryOptions) (request : RequestRetryConfig) : Type 0 where
  pub retryable : options.retryable ≡ true
  pub action : IsAction request.action options.actions
  pub caches : All (λ n. IsCache n options.tool_caches) request.tool_cache_names
  pub caches_only : request.action ≢ codes "no-tool-cache" → request.tool_cache_names ≡ []
  pub debug :
      ((request.debug ≡ none) × (request.debug_placement ≡ []))
      ⊎ ((request.debug ≡ some true)
          × (options.debug.supported ≡ true)
          × AnyOf (λ x. x ≡ request.debug_placement) options.debug.placements)

-- the choice of the debug options
debug_allowed :
    (placement : Bytes) (options : RetryDebugOptions) {debug : Option Bool} {chosen : Bytes}
    → select_retry_debug_options placement options ≡ ok (debug, chosen)
    → ((debug ≡ none) × (chosen ≡ []))
      ⊎ ((debug ≡ some true)
          × (options.supported ≡ true)
          × AnyOf (λ x. x ≡ chosen) options.placements)
unfolding select_retry_debug_options
debug_allowed placement options e = ground (arith, string_listed placement options.placements)

-- Whatever the flags and the picker say, a request that is chosen is allowed by the options, and is
-- for the target of the command.
pub select_retry_request-IsAllowed :
    (p : Picker) (interactive : Bool) (cfg : RetryConfig) (options : RetryOptions)
    {request : RequestRetryConfig}
    → select_retry_request p interactive cfg options ≡ ok request
    → IsAllowed options request × (request.target ≡ cfg.target)
unfolding select_retry_request
select_retry_request-IsAllowed p interactive cfg options {request} e =
    elim (Bool-cases options.retryable) [
      | inr unable ↦ absurd (ground arith)
      | inl able ↦ elim (Result-cases (choose_action p interactive cfg.action options.actions)) [
        | inr (x, ea) ↦ absurd (ground arith)
        | inl (action, ea) ↦
            elim (Result-cases (
              choose_caches p interactive action (unique_strings cfg.without_tool_cache)
                options.tool_caches)) [
                  | inr (x, ec) ↦ absurd (ground arith)
                  | inl (names, ec) ↦
                      elim (Result-cases
                        (select_retry_debug_options cfg.debug_placement options.debug)) [
                          | inr (x, ed) ↦ absurd (ground arith)
                          | inl ((debug, chosen), ed) ↦
                              let made : RequestRetryConfig = record {
                                target = cfg.target;
                                action = action;
                                debug = debug;
                                debug_placement = chosen;
                                tool_cache_names = names;
                              } in
                              let same : made ≡ request = ground arith in
                              let c =
                                choose_caches-allowed p interactive action _ options.tool_caches
                                  ec in
                              subst (λ r. IsAllowed options r × (r.target ≡ cfg.target)) same
                                (
                                  record {
                                    retryable = able;
                                    action =
                                        choose_action-IsAction p interactive cfg.action
                                          options.actions ea;
                                    caches = c.0;
                                    caches_only = c.1;
                                    debug = debug_allowed cfg.debug_placement options.debug ed;
                                  },
                                  refl,
                                )
                        ]
                ]
      ]
    ]

choose_action_flagged :
    (p q : Picker) (flag : Bytes) (actions : List RetryAction)
    → choose_action p false flag actions ≡ choose_action q false flag actions
unfolding choose_action asked_action
choose_action_flagged p q flag actions = ground arith

choose_caches_flagged :
    (p q : Picker) (action : Bytes) (flags : List Bytes) (caches : List RetryToolCache)
    → choose_caches p false action flags caches ≡ choose_caches q false action flags caches
unfolding choose_caches asked_caches
choose_caches_flagged p q action flags caches = ground arith

-- Without a terminal nothing is asked: the choice does not depend on the picker.
pub select_retry_request_unasked :
    (p q : Picker) (cfg : RetryConfig) (options : RetryOptions)
    → select_retry_request p false cfg options ≡ select_retry_request q false cfg options
unfolding select_retry_request
select_retry_request_unasked p q cfg options = elim (Bool-cases options.retryable) [
  | inr unable ↦ ground arith
  | inl able ↦ elim (Result-cases (choose_action p false cfg.action options.actions)) [
    | inr (x, ea) ↦ ground (arith, choose_action_flagged p q cfg.action options.actions)
    | inl (action, ea) ↦ ground (
      arith,
      choose_action_flagged p q cfg.action options.actions,
      choose_caches_flagged p q action (unique_strings cfg.without_tool_cache) options.tool_caches,
    )
  ]
]
