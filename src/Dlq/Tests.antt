-- ===== src/Dlq/Tests.antt =====
-- Runs of core/dlq.py, and the theorems about it at concrete queues.
use dremio_cdc.Prelude.{ℕ, ◌+◌, ◌≡◌, refl, List, [], ◌∷◌, ◌++◌, map, arith, Text-discrete}
use dremio_cdc.Prelude.Chars.{codes}
use dremio_cdc.Event.{ChangeEvent}
use dremio_cdc.Outcome.{ok, raised, SinkApi}
use dremio_cdc.Samples.{plain, inserted}
use dremio_cdc.Dlq
use dremio_cdc.Dlq.{
  Status, pending, exhausted, Entry, Dlq, new_entry, push, get_events, stats, pending_count,
}
use dremio_cdc.Dlq.Serial.{serialize_event, deserialize_event}
use dremio_cdc.Dlq.RoundTrip.{restored, deserialize-serialize, get_events-push}
use dremio_cdc.Dlq.Laws.{Call, IsValid, run, call, payload, parked, run-IsValid, call-payload}
use dremio_cdc.Dlq.Worker.{rounds, retry_pending}
use dremio_cdc.Dlq.Worker.Ends.{rounds_settle}

abbrev batch : List ChangeEvent
batch = inserted 1 (codes "1") 3 ∷ inserted 2 (codes "2") 4 ∷ []

abbrev no_entries : Dlq
no_entries = record { entries = []; next_id = 1; max_retries = 2 }

no_entries-IsValid : IsValid no_entries
no_entries-IsValid = record { ids = omega arith; sound = tt }

-- A sink that is down, and counts the calls.
abbrev down : SinkApi
down = record { Sink = ℕ; write_batch = λ events n. (raised (codes "503"), n + 1) }

abbrev one_parked : Dlq
one_parked = record no_entries {
  entries =
      new_entry no_entries (codes "pg") (codes "people") (map (serialize_event plain) batch)
        (codes "503")
      ∷ [];
  next_id = 2;
}

down_twice : pending_count (rounds down plain 0 2 (one_parked, 0)).0 ≡ 0
unfolding pending_count rounds retry_pending Dlq.Worker.retry_entry get_events Dlq.get_pending
    Dlq.mark_failed serialize_event deserialize_event Dlq.Serial.op_value Dlq.Serial.parse_operation
    Text-discrete
down_twice = refl

calls : List Call
calls =
    Call.push (codes "pg") (codes "people") batch (codes "503")
    ∷ Call.mark_failed 1 (codes "503")
    ∷ Call.mark_failed 1 (codes "503")
    ∷ Call.discard_all
    ∷ []

run-IsValid_example : IsValid (run plain calls no_entries)
run-IsValid_example = run-IsValid plain calls no_entries no_entries-IsValid

call-payload_example :
    map payload (call plain (Call.mark_replayed 1) one_parked).entries
    ≡ map payload one_parked.entries ++ parked plain (Call.mark_replayed 1) one_parked
call-payload_example = call-payload plain (Call.mark_replayed 1) one_parked

deserialize-serialize_example :
    deserialize_event plain 9 (serialize_event plain (inserted 1 (codes "1") 3))
    ≡ ok (restored plain 9 (inserted 1 (codes "1") 3))
deserialize-serialize_example = deserialize-serialize plain 9 (inserted 1 (codes "1") 3)

get_events-push_example :
    let (i, q) = push plain (codes "pg") (codes "people") batch (codes "503") no_entries in
    get_events plain 9 i q ≡ ok (map (restored plain 9) batch)
get_events-push_example =
    get_events-push plain 9 (codes "pg") (codes "people") (codes "503") batch no_entries
      no_entries-IsValid

rounds_settle_example : pending_count (rounds down plain 0 3 (one_parked, 0)).0 ≡ 0
rounds_settle_example = rounds_settle down plain 0 3 one_parked 0 (omega arith) (omega arith)
