-- ===== src/Telemetry.antt =====
-- Telemetry: the event queue, the statistics of API calls and the flush at the end of a run
-- (internal/telemetry/collector.go, stats_roundtripper.go, transport.go, telemetry.go).
mod Agent
mod Detection
mod Aggregate
mod Delivery
mod Tests
use rwx.Prelude.{
  ℕ, ◌+◌, Bool, true, false, ◌&&◌, Option, none, some, List, [], ◌∷◌, ◌++◌, map, length, Eq, ◌==◌,
  Bytes, bytes_eq, bytes_beq, bytes_beq_iff, codes, if◌then◌else◌, ◌≡◌, refl, ◌↔◌, arith,
}
use rwx.Prelude.Dict.{Dict, get, put}
use rwx.Prelude.Result.{Result, ok, err}

-- One API round trip.
pub record CallStats : Type 0 where
  pub path : Bytes
  pub method : Bytes
  pub status_code : ℕ
  pub duration_ms : ℕ

-- A path and a method.
pub record CallKey : Type 0 where
  pub path : Bytes
  pub method : Bytes

unfoldable pub key_beq : CallKey → CallKey → Bool
unfolding bytes_beq
key_beq a b = a.path == b.path && a.method == b.method

pub key_beq_iff : (a b : CallKey) → (key_beq a b ≡ true) ↔ (a ≡ b)
unfolding key_beq
key_beq_iff a b = ground (arith, bytes_beq_iff a.path b.path, bytes_beq_iff a.method b.method)

instance abbrev pub key_eq : Eq CallKey
key_eq = record { same = key_beq; same_iff = key_beq_iff }

unfoldable pub call_key : CallStats → CallKey
call_key c = record { path = c.path; method = c.method }

pub record AggregatedCall : Type 0 where
  pub path : Bytes
  pub method : Bytes
  pub count : ℕ
  pub status_codes : List ℕ
  pub total_ms : ℕ

-- What an event carries: properties of its own, which are a parameter, or the summary's calls.
pub data Props (P : Type 0) : Type 0 where
  given : P → Props P
  summary_calls : List AggregatedCall → Props P

pub record Event (P : Type 0) : Type 0 where
  pub event : Bytes
  pub timestamp : Bytes
  pub os : Bytes
  pub arch : Bytes
  pub agent : Bytes
  pub ci : Bytes
  pub props : Props P

pub record Collector (P : Type 0) : Type 0 where
  pub events : List (Event P)
  pub agent : Bytes
  pub ci : Bytes

-- The machine, and the time at which an event is recorded.
pub record Host : Type 0 where
  pub now : Bytes
  pub os : Bytes
  pub arch : Bytes

module _ {P : Type 0} where
  unfoldable pub new_event : Host → Collector P → Bytes → Props P → Event P
  new_event host c event props = record {
    event = event;
    timestamp = host.now;
    os = host.os;
    arch = host.arch;
    agent = c.agent;
    ci = c.ci;
    props = props;
  }

  -- `Collector.Record`
  unfoldable pub record_event : Host → Collector P → Bytes → Props P → Collector P
  unfolding new_event
  record_event host c event props = record c {
    events = c.events ++ (new_event host c event props ∷ []);
  }

  unfoldable pub drain : Collector P → List (Event P) × Collector P
  drain c = (c.events, record c { events = [] })

-- `StatsRoundTripper.RoundTrip`, with the answer of the round tripper below and the time it took;
-- a response is its status code and the rest of it.
unfoldable pub stats_round_trip {ℓ κ} :
    {E : Type ℓ} {R : Type κ}
    → Bytes
    → Bytes
    → Result E (ℕ × R)
    → ℕ
    → List CallStats
    → List CallStats × Result E (ℕ × R)
unfolding bytes_beq
stats_round_trip path method answer duration_ms calls =
    let recorded : ℕ → List CallStats = λ status.
      calls
      ++ (record { path = path; method = method; status_code = status; duration_ms = duration_ms }
          ∷ []) in
    if path == codes "/api/telemetry" then (calls, answer) else elim answer [
      | ok (status, rest) ↦ (recorded status, ok (status, rest))
      | err e ↦ (recorded 0, err e)
    ]

-- `RecordSummary`'s state: the keys in the order met, and the entry of each.
pub record Aggregation : Type 0 where
  pub order : List CallKey
  pub agg : Dict CallKey AggregatedCall

unfoldable pub empty_entry : CallKey → AggregatedCall
empty_entry k = record {
  path = k.path;
  method = k.method;
  count = 0;
  status_codes = [];
  total_ms = 0;
}

unfoldable pub add_to_entry : AggregatedCall → CallStats → AggregatedCall
add_to_entry entry c = record entry {
  count = entry.count + 1;
  total_ms = entry.total_ms + c.duration_ms;
  status_codes = entry.status_codes ++ (c.status_code ∷ []);
}

-- One turn of the loop over the calls.
unfoldable pub add_call : Aggregation → CallStats → Aggregation
unfolding key_beq call_key empty_entry add_to_entry
add_call s c = elim (get s.agg (call_key c)) [
  | none ↦ record {
    order = s.order ++ (call_key c ∷ []);
    agg = put s.agg (call_key c) (add_to_entry (empty_entry (call_key c)) c);
  }
  | some entry ↦ record s { agg = put s.agg (call_key c) (add_to_entry entry c) }
]

unfoldable pub add_calls : Aggregation → List CallStats → Aggregation
unfolding add_call
add_calls s [] = s
add_calls s (c ∷ cs) = add_calls (add_call s c) cs

-- The entries in their order; a key without an entry would be a nil pointer.
unfoldable pub listed : Dict CallKey AggregatedCall → List CallKey → Option (List AggregatedCall)
unfolding key_beq
listed agg [] = some []
listed agg (k ∷ ks) =
    let rest = listed agg ks in
    elim (get agg k) [
      | none ↦ none
      | some entry ↦ elim rest [ none ↦ none | some entries ↦ some (entry ∷ entries) ]
    ]

-- The aggregated calls; `none` is a nil pointer dereference.
unfoldable pub summary : List CallStats → Option (List AggregatedCall)
unfolding add_calls listed
summary calls = let s = add_calls (record { order = []; agg = [] }) calls in listed s.agg s.order

module _ {P : Type 0} where
  -- `RecordSummary`: the collector afterwards; the recorded calls are emptied in any case.
  unfoldable pub record_summary :
      Host → List CallStats → Collector P → Option (List CallStats × Collector P)
  unfolding summary record_event
  record_summary host [] c = some ([], c)
  record_summary host (call ∷ cs) c = elim (summary (call ∷ cs)) [
    | none ↦ none
    | some result ↦ some ([], record_event host c (codes "api.summary") (summary_calls result))
  ]

  -- `Sender.Flush`: the events handed to `send`, if any, and the collector afterwards.
  unfoldable pub sender_flush : Collector P → Option (List (Event P)) × Collector P
  unfolding drain
  sender_flush c =
      let (events, emptied) = drain c in
      elim events [ [] ↦ (none, emptied) | e ∷ es ↦ (some (e ∷ es), emptied) ]

  -- `Telemetry.Flush` of a telemetry with a sender; `stats` is nil where the CLI wraps no round tripper.
  unfoldable pub flush :
      Host
      → Option (List CallStats)
      → Collector P
      → Option (Option (List (Event P)) × Option (List CallStats) × Collector P)
  unfolding record_summary sender_flush
  flush host none c = let (sent, emptied) = sender_flush c in some (sent, none, emptied)
  flush host (some cs) c = elim (record_summary host cs c) [
    | none ↦ none
    | some (left, summed) ↦
        let (sent, emptied) = sender_flush summed in some (sent, some left, emptied)
  ]
