-- ===== src/RetryRequest.antt =====
-- internal/cli/service_retry.go: choosing the retry request from the flags and the server's options,
-- and sending it, a second time if the options have changed. The choice picker and the API are
-- arguments. An error is what went wrong, without the text that lists the choices.
mod Tests
pub mod Unique
pub mod Allowed
pub mod Sending
use rwx.Prelude.{
  ℕ, zero, suc, Bool, true, false, ◌&&◌, ◌||◌, not, Option, none, some, List, [], ◌∷◌, ◌==◌, nat_eq,
  bytes_eq, bytes_beq, Bytes, codes, any, all, map, if◌then◌else◌,
}
use rwx.Prelude.Result.{Result, ok, err, ◌>>=◌, ◌>>◌}
use rwx.Errors.{GoError}

pub record RetryAction : Type 0 where
  pub value : Bytes
  pub label : Bytes
  pub description : Bytes

pub record RetryToolCache : Type 0 where
  pub name : Bytes
  pub usage_description : Bytes

pub record RetryDebugOptions : Type 0 where
  pub supported : Bool
  pub disabled_reason : Bytes
  pub placements : List Bytes

pub record RetryOptions : Type 0 where
  pub retryable : Bool
  pub unavailable_reason : Bytes
  pub actions : List RetryAction
  pub tool_caches : List RetryToolCache
  pub debug : RetryDebugOptions

pub record RetryConfig : Type 0 where
  pub target : Bytes
  pub action : Bytes
  pub without_tool_cache : List Bytes
  pub debug_placement : Bytes
  pub output_json : Bool

pub record RequestRetryConfig : Type 0 where
  pub target : Bytes
  pub action : Bytes
  pub debug : Option Bool
  pub debug_placement : Bytes
  pub tool_cache_names : List Bytes

-- Why there is no request. `out_of_range` is the panic of an index that the picker made up.
pub data Refusal : Type 0 where
  missing_target not_retryable action_required cache_required cache_not_allowed : Refusal
  no_actions no_caches no_breakpoint out_of_range : Refusal
  action_unavailable cache_unavailable placement_unavailable : Bytes → Refusal
  picker_failed api_failed : GoError → Refusal

-- `ChoicePicker`, given the number of choices.
pub record Picker : Type 0 where
  pub pick_one : ℕ → Result GoError ℕ
  pub pick_many : ℕ → Result GoError (List ℕ)

unfoldable pub retry_action_available : Bytes → List RetryAction → Bool
unfolding bytes_beq
retry_action_available value [] = false
retry_action_available value (action ∷ actions) =
    action.value == value || retry_action_available value actions

unfoldable pub retry_tool_cache_available : Bytes → List RetryToolCache → Bool
unfolding bytes_beq
retry_tool_cache_available name [] = false
retry_tool_cache_available name (cache ∷ caches) =
    cache.name == name || retry_tool_cache_available name caches

unfoldable pub string_available : Bytes → List Bytes → Bool
unfolding bytes_beq
string_available value [] = false
string_available value (choice ∷ choices) = choice == value || string_available value choices

-- the loop of `uniqueStrings`; `seen` holds the values met so far
unfoldable pub unique_from : List Bytes → List Bytes → List Bytes
unfolding string_available
unique_from seen [] = []
unique_from seen (value ∷ values) = elim (string_available value seen) [
  | true ↦ unique_from seen values
  | false ↦ value ∷ unique_from (value ∷ seen) values
]

unfoldable pub unique_strings : List Bytes → List Bytes
unfolding unique_from
unique_strings values = unique_from [] values

index_of {ℓ} : {A : Type ℓ} → List A → ℕ → Result Refusal A
index_of [] i = err out_of_range
index_of (x ∷ xs) zero = ok x
index_of (x ∷ xs) (suc i) = index_of xs i

picked {ℓ} : {A : Type ℓ} → Result GoError A → Result Refusal A
picked (ok a) = ok a
picked (err e) = err (picker_failed e)

count {ℓ} : {A : Type ℓ} → List A → ℕ
count [] = 0
count (x ∷ xs) = suc (count xs)

prompt_for_retry_action : Picker → List RetryAction → Result Refusal Bytes
unfolding index_of picked count
prompt_for_retry_action p [] = err no_actions
prompt_for_retry_action p (a ∷ actions) = do
  selected ← picked (p.pick_one (count (a ∷ actions)))
  action ← index_of (a ∷ actions) selected
  ok action.value

cache_names : List RetryToolCache → List ℕ → Result Refusal (List Bytes)
unfolding index_of
cache_names caches [] = ok []
cache_names caches (i ∷ indexes) = do
  cache ← index_of caches i
  names ← cache_names caches indexes
  ok (cache.name ∷ names)

prompt_for_retry_tool_caches : Picker → List RetryToolCache → Result Refusal (List Bytes)
unfolding cache_names picked count
prompt_for_retry_tool_caches p [] = err no_caches
prompt_for_retry_tool_caches p (c ∷ caches) = do
  indexes ← picked (p.pick_many (count (c ∷ caches)))
  cache_names (c ∷ caches) indexes

-- the action of the flag, or the only one there is, or "" if it must be asked for
wanted_action : Bytes → List RetryAction → Bytes
wanted_action [] (only ∷ []) = only.value
wanted_action action actions = action

asked_action : Picker → Bool → Bytes → List RetryAction → Result Refusal Bytes
unfolding prompt_for_retry_action
asked_action p interactive [] actions =
    if interactive then prompt_for_retry_action p actions else err action_required
asked_action p interactive (c ∷ action) actions = ok (c ∷ action)

choose_action : Picker → Bool → Bytes → List RetryAction → Result Refusal Bytes
unfolding wanted_action asked_action retry_action_available
choose_action p interactive flag actions = do
  action ← asked_action p interactive (wanted_action flag actions) actions
  if retry_action_available action actions then ok action else err (action_unavailable action)

wanted_caches : List Bytes → List RetryToolCache → List Bytes
wanted_caches [] (only ∷ []) = only.name ∷ []
wanted_caches names caches = names

check_caches : List Bytes → List RetryToolCache → Result Refusal (Unit {0})
unfolding retry_tool_cache_available
check_caches [] caches = ok tt
check_caches (name ∷ names) caches =
    let rest = check_caches names caches in
    if retry_tool_cache_available name caches then rest else err (cache_unavailable name)

asked_caches : Picker → Bool → List Bytes → List RetryToolCache → Result Refusal (List Bytes)
unfolding prompt_for_retry_tool_caches
asked_caches p interactive [] caches =
    if interactive then prompt_for_retry_tool_caches p caches else err cache_required
asked_caches p interactive (name ∷ names) caches = ok (name ∷ names)

unfoldable pub is_empty {ℓ} : {A : Type ℓ} → List A → Bool
is_empty [] = true
is_empty (x ∷ xs) = false

choose_caches :
    Picker → Bool → Bytes → List Bytes → List RetryToolCache → Result Refusal (List Bytes)
unfolding wanted_caches asked_caches check_caches is_empty bytes_beq
choose_caches p interactive action flags caches =
    if action == codes "no-tool-cache"
    then (do
      names ← asked_caches p interactive (wanted_caches flags caches) caches
      check_caches names caches
      ok names)
    else if is_empty flags
    then ok []
    else err cache_not_allowed

unfoldable pub select_retry_debug_options :
    Bytes → RetryDebugOptions → Result Refusal (Option Bool × Bytes)
unfolding bytes_beq string_available
select_retry_debug_options placement options =
    if placement == []
    then ok (none, [])
    else if not options.supported
    then err no_breakpoint
    else if not (string_available placement options.placements)
    then err (placement_unavailable placement)
    else ok (some true, placement)

unfoldable pub select_retry_request :
    Picker → Bool → RetryConfig → RetryOptions → Result Refusal RequestRetryConfig
unfolding choose_action choose_caches select_retry_debug_options unique_strings
select_retry_request p interactive cfg options = elim options.retryable [
  | false ↦ err not_retryable
  | true ↦ do
    action ← choose_action p interactive cfg.action options.actions
    names ←
        choose_caches p interactive action (unique_strings cfg.without_tool_cache)
          options.tool_caches
    debug ← select_retry_debug_options cfg.debug_placement options.debug
    ok (record {
      target = cfg.target;
      action = action;
      debug = debug.0;
      debug_placement = debug.1;
      tool_cache_names = names;
    })
]
