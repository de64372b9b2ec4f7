-- ===== src/Telemetry/Delivery.antt =====
-- What a flush sends, and what it leaves.
use rwx.Prelude.{Option, none, some, List, [], ◌∷◌, ◌++◌, map, codes, ◌≡◌, arith, append-nil}
use rwx.Telemetry.{
  CallStats, Event, Collector, Host, summary_calls, new_event, record_event, flush, record_summary,
  sender_flush, drain,
}
use rwx.Telemetry.Aggregate.{calls_of, entry_for, keys_met, summary-entry_for}

module _ {P : Type 0} where
  -- The summary event of the calls seen so far, if there are any.
  abbrev pub summary_events : Host → Option (List CallStats) → Collector P → List (Event P)
  summary_events host none c = []
  summary_events host (some []) c = []
  summary_events host (some (call ∷ cs)) c =
      let all_calls = call ∷ cs in
      new_event host c (codes "api.summary")
        (summary_calls (map (λ k. entry_for k (calls_of k all_calls)) (keys_met [] all_calls)))
      ∷ []

  -- Nothing is sent for an empty queue.
  abbrev pub sent_of : List (Event P) → Option (List (Event P))
  sent_of [] = none
  sent_of (e ∷ es) = some (e ∷ es)

  -- A flush never fails. It sends, in one request, every event queued so far in order, and after
  -- them the summary of the calls where any were recorded; it sends no request where there is
  -- neither. Afterwards the queue and the recorded calls are empty.
  pub flush-summary_events :
      (host : Host) (stats : Option (List CallStats)) (c : Collector P)
      → flush host stats c
        ≡ some (
          sent_of (c.events ++ summary_events host stats c),
          (elim stats [ none ↦ none | some _ ↦ some [] ]),
          record c { events = [] },
        )
  unfolding flush record_summary sender_flush drain record_event
  flush-summary_events host none c = ground (arith, append-nil c.events)
  flush-summary_events host (some []) c = ground (arith, append-nil c.events)
  flush-summary_events host (some (call ∷ cs)) c = ground (arith, summary-entry_for (call ∷ cs))
