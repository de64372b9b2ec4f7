-- ===== src/Telemetry/Aggregate.antt =====
-- The summary of the API calls against a description of it: one entry to each path and method that
-- was called, in the order of the first calls, with what its calls add up to.
use rwx.Prelude.{
  ℕ, ◌+◌, Bool, true, false, Option, none, some, Option-cases, List, [], ◌∷◌, ◌++◌, map,
  append_assoc, append-nil, length, length-append, ◌==◌, if◌then◌else◌, ◌≡◌, refl, ap, sym, subst,
  ◌∙◌, inl, inr, arith,
}
use rwx.Prelude.Dict.{Dict, get, get-put}
use rwx.Telemetry.{
  CallStats, CallKey, key_beq, key_beq_iff, key_eq, call_key, AggregatedCall, Aggregation,
  empty_entry, add_to_entry, add_call, add_calls, listed, summary,
}

-- The calls of one path and method.
unfoldable pub calls_of : CallKey → List CallStats → List CallStats
unfolding key_beq
calls_of k [] = []
calls_of k (c ∷ cs) = let rest = calls_of k cs in if call_key c == k then c ∷ rest else rest

unfoldable pub durations : List CallStats → ℕ
durations [] = 0
durations (c ∷ cs) = c.duration_ms + durations cs

-- The keys met, each once, in the order of their first calls; `seen` are those already met.
unfoldable pub seen_in : List CallKey → CallKey → Bool
unfolding key_beq
seen_in [] k = false
seen_in (j ∷ js) k = if j == k then true else seen_in js k

unfoldable pub keys_met : List CallKey → List CallStats → List CallKey
unfolding seen_in
keys_met seen [] = seen
keys_met seen (c ∷ cs) =
    if seen_in seen (call_key c) then keys_met seen cs else keys_met (seen ++ (call_key c ∷ [])) cs

-- The entry that the calls of one path and method call for.
unfoldable pub entry_for : CallKey → List CallStats → AggregatedCall
unfolding durations
entry_for k cs = record {
  path = k.path;
  method = k.method;
  count = length cs;
  status_codes = map (λ c. c.status_code) cs;
  total_ms = durations cs;
}

occupied : CallKey → List CallStats → Bool
unfolding calls_of
occupied k cs = elim (calls_of k cs) [ [] ↦ false | _ ∷ _ ↦ true ]

entry_at : CallKey → List CallStats → Option AggregatedCall
unfolding calls_of entry_for
entry_at k cs = elim (calls_of k cs) [ [] ↦ none | c ∷ rest ↦ some (entry_for k (c ∷ rest)) ]

-- What the loop has after the calls `done`.
abbrev IsAggregated : Aggregation → List CallStats → Type 0
IsAggregated s done =
    (k : CallKey) → (get s.agg k ≡ entry_at k done) × (seen_in s.order k ≡ occupied k done)

calls_of-append :
    (k : CallKey) (cs ds : List CallStats) → calls_of k (cs ++ ds) ≡ calls_of k cs ++ calls_of k ds
unfolding calls_of
calls_of-append k [] ds = refl
calls_of-append k (c ∷ cs) ds = ground (arith, calls_of-append k cs ds)

durations-append : (cs ds : List CallStats) → durations (cs ++ ds) ≡ durations cs + durations ds
unfolding durations
durations-append [] ds = ground arith
durations-append (c ∷ cs) ds = ground (arith, durations-append cs ds)

codes-append :
    (cs ds : List CallStats)
    → map (λ (c : CallStats). c.status_code) (cs ++ ds)
      ≡ map (λ (c : CallStats). c.status_code) cs ++ map (λ (c : CallStats). c.status_code) ds
codes-append [] ds = refl
codes-append (c ∷ cs) ds = ap (◌∷◌ c.status_code) (codes-append cs ds)

entry_for-snoc :
    (k : CallKey) (cs : List CallStats) (c : CallStats)
    → entry_for k (cs ++ (c ∷ [])) ≡ add_to_entry (entry_for k cs) c
unfolding entry_for add_to_entry durations
entry_for-snoc k cs c =
    ground
      (arith, length-append cs (c ∷ []), durations-append cs (c ∷ []), codes-append cs (c ∷ []))

seen_in-snoc :
    (ks : List CallKey) (j k : CallKey)
    → seen_in (ks ++ (j ∷ [])) k ≡ (if seen_in ks k then true else j == k)
unfolding seen_in
seen_in-snoc [] j k = ground arith
seen_in-snoc (i ∷ ks) j k = ground (arith, seen_in-snoc ks j k)

calls_of-snoc :
    (k : CallKey) (cs : List CallStats) (c : CallStats)
    → calls_of k (cs ++ (c ∷ []))
      ≡ (if call_key c == k then calls_of k cs ++ (c ∷ []) else calls_of k cs)
unfolding calls_of
calls_of-snoc k cs c = ground (arith, calls_of-append k cs (c ∷ []), append-nil (calls_of k cs))

entry_at-snoc :
    (k : CallKey) (cs : List CallStats) (c : CallStats)
    → entry_at k (cs ++ (c ∷ [])) ≡ (
        if call_key c == k
        then some (add_to_entry (elim (entry_at k cs) [ none ↦ empty_entry k | some e ↦ e ]) c)
        else entry_at k cs)
unfolding entry_at entry_for add_to_entry empty_entry durations
entry_at-snoc k cs c = ground (arith, calls_of-snoc k cs c, entry_for-snoc k (calls_of k cs) c)

occupied-snoc :
    (k : CallKey) (cs : List CallStats) (c : CallStats)
    → occupied k (cs ++ (c ∷ [])) ≡ (if call_key c == k then true else occupied k cs)
unfolding occupied
occupied-snoc k cs c = ground (arith, calls_of-snoc k cs c)

occupied-entry_at :
    (k : CallKey) (cs : List CallStats)
    → occupied k cs ≡ (elim (entry_at k cs) [ none ↦ false | some _ ↦ true ])
unfolding occupied entry_at
occupied-entry_at k cs = ground arith

add_call-order :
    (s : Aggregation) (done : List CallStats) (c : CallStats)
    → IsAggregated s done
    → (add_call s c).order
      ≡ (if seen_in s.order (call_key c) then s.order else s.order ++ (call_key c ∷ []))
unfolding add_call
add_call-order s done c inv = ground (arith, inv (call_key c), occupied-entry_at (call_key c) done)

add_call-IsAggregated :
    (s : Aggregation) (done : List CallStats) (c : CallStats)
    → IsAggregated s done
    → IsAggregated (add_call s c) (done ++ (c ∷ []))
unfolding add_call
add_call-IsAggregated s done c inv k = elim (Option-cases (get s.agg (call_key c))) [
  | inl e ↦ ground (
    arith,
    e,
    inv k,
    inv (call_key c),
    key_beq_iff (call_key c) k,
    entry_at-snoc k done c,
    occupied-snoc k done c,
    occupied-entry_at (call_key c) done,
    seen_in-snoc s.order (call_key c) k,
    get-put s.agg (call_key c) k (add_to_entry (empty_entry (call_key c)) c),
  )
  | inr (entry, e) ↦ ground (
    arith,
    e,
    inv k,
    inv (call_key c),
    key_beq_iff (call_key c) k,
    entry_at-snoc k done c,
    occupied-snoc k done c,
    occupied-entry_at (call_key c) done,
    get-put s.agg (call_key c) k (add_to_entry entry c),
  )
]

add_calls-IsAggregated :
    (s : Aggregation) (done cs : List CallStats)
    → IsAggregated s done
    → IsAggregated (add_calls s cs) (done ++ cs)
unfolding add_calls
add_calls-IsAggregated s done [] inv = subst (IsAggregated s) (sym (append-nil done)) inv
add_calls-IsAggregated s done (c ∷ cs) inv =
    subst (IsAggregated (add_calls (add_call s c) cs)) (append_assoc done (c ∷ []) cs) (
      add_calls-IsAggregated (add_call s c) (done ++ (c ∷ [])) cs
        (add_call-IsAggregated s done c inv))

add_calls-order :
    (s : Aggregation) (done cs : List CallStats)
    → IsAggregated s done
    → (add_calls s cs).order ≡ keys_met s.order cs
unfolding add_calls keys_met
add_calls-order s done [] inv = refl
add_calls-order s done (c ∷ cs) inv = ground (
  arith,
  add_call-order s done c inv,
  add_calls-order (add_call s c) (done ++ (c ∷ [])) cs (add_call-IsAggregated s done c inv),
)

listed_lem :
    (agg : Dict CallKey AggregatedCall) (f : CallKey → AggregatedCall) (ks : List CallKey)
    → ((k : CallKey) → seen_in ks k ≡ true → get agg k ≡ some (f k))
    → listed agg ks ≡ some (map f ks)
unfolding listed seen_in
listed_lem agg f [] h = refl
listed_lem agg f (k ∷ ks) h = ground (
  arith,
  h k,
  key_beq_iff k k,
  listed_lem agg f ks (λ j e. h j (ground (arith, e, key_beq_iff k j))),
)

seen_entry :
    (k : CallKey) (cs : List CallStats) {e : Option AggregatedCall} {seen : Bool}
    → (e ≡ entry_at k cs) × (seen ≡ occupied k cs)
    → seen ≡ true
    → e ≡ some (entry_for k (calls_of k cs))
unfolding entry_at occupied
seen_entry k cs h t = ground (arith, h, t)

empty-IsAggregated : IsAggregated (record { order = []; agg = [] }) []
unfolding seen_in occupied entry_at get
empty-IsAggregated k = (refl, refl)

-- The summary of any calls exists: no entry is missing, so no nil pointer is read. It has one entry
-- to each path and method called, in the order of the first call of each, and that entry has the
-- number of the calls of this path and method, their status codes in order and the sum of their
-- durations.
pub summary-entry_for :
    (cs : List CallStats)
    → summary cs ≡ some (map (λ k. entry_for k (calls_of k cs)) (keys_met [] cs))
unfolding summary
summary-entry_for cs =
    let start : Aggregation = record { order = []; agg = [] } in
    let inv = add_calls-IsAggregated start [] cs empty-IsAggregated in
    let listed_eq =
      listed_lem (add_calls start cs).agg (λ k. entry_for k (calls_of k cs))
        (add_calls start cs).order (λ k e. seen_entry k cs (inv k) e) in
    listed_eq
    ∙ ap (λ ks. some (map (λ k. entry_for k (calls_of k cs)) ks))
        (add_calls-order start [] cs empty-IsAggregated)
