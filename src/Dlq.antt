-- ===== src/Dlq.antt =====
-- core/dlq.py: the dead letter queue and its retry worker.
pub mod Serial
pub mod RoundTrip
pub mod Laws
pub mod Worker
mod Tests
use dremio_cdc.Prelude.{
  ℕ, ◌+◌, Bool, true, false, ◌||◌, Option, none, some, List, [], ◌∷◌, ◌++◌, map, Text, take, length,
  keep, leb, ◌=ℕ◌, if◌then◌else◌,
}
use mathlib.Core.List.{reverse}
use dremio_cdc.Event.{ChangeEvent, Printing}
use dremio_cdc.Outcome.{Outcome, ok, raised, SinkApi}
use dremio_cdc.Dlq.Serial.{Stored, serialize_event, deserialize_all}

pub data Status : Type 0 where
  pending replayed exhausted discarded : Status

abbrev pub is_status : Status → Status → Bool
is_status pending pending = true
is_status replayed replayed = true
is_status exhausted exhausted = true
is_status discarded discarded = true
is_status _ _ = false

-- A row of `dlq_entries`, less its time stamps.
pub record Entry : Type 0 where
  pub id : ℕ
  pub source : Text
  pub tbl : Text
  pub events : List Stored
  pub event_count : ℕ
  pub error : Text
  pub retry_count : ℕ
  pub max_retries : ℕ
  pub status : Status

-- The table in the order of its ids, the next id that AUTOINCREMENT gives, and the limit for new
-- entries.
pub record Dlq : Type 0 where
  pub entries : List Entry
  pub next_id : ℕ
  pub max_retries : ℕ

abbrev pub new_entry : Dlq → Text → Text → List Stored → Text → Entry
new_entry q source table events error = record {
  id = q.next_id;
  source = source;
  tbl = table;
  events = events;
  event_count = length events;
  error = error;
  retry_count = 0;
  max_retries = q.max_retries;
  status = pending;
}

-- `UPDATE dlq_entries SET ... WHERE ...`
abbrev pub update_where : (Entry → Bool) → (Entry → Entry) → List Entry → List Entry
update_where test change [] = []
update_where test change (e ∷ es) = (if test e then change e else e) ∷ update_where test change es

abbrev pub has_id : ℕ → Entry → Bool
has_id i e = e.id =ℕ i

abbrev update : (Entry → Bool) → (Entry → Entry) → Dlq → Dlq
update test change q = record q { entries = update_where test change q.entries }

unfoldable pub set_status : ℕ → Status → Dlq → Dlq
set_status i s q = update (has_id i) (λ e. record e { status = s }) q

unfoldable pub mark_replayed : ℕ → Dlq → Dlq
unfolding set_status
mark_replayed i q = set_status i replayed q

unfoldable pub fail : Text → Entry → Entry
fail error e = record e {
  retry_count = e.retry_count + 1;
  error = error;
  status = if leb e.max_retries (e.retry_count + 1) then exhausted else pending;
}

unfoldable pub mark_failed : ℕ → Text → Dlq → Dlq
unfolding fail
mark_failed i error q = update (has_id i) (fail error) q

unfoldable pub reset_to_pending : ℕ → Dlq → Dlq
reset_to_pending i q = update (has_id i) (λ e. record e { status = pending; retry_count = 0 }) q

unfoldable pub discard : ℕ → Dlq → Dlq
unfolding set_status
discard i q = set_status i discarded q

unfoldable pub discard_all : Dlq → Dlq
discard_all q =
    update (λ e. is_status pending e.status || is_status exhausted e.status)
      (λ e. record e { status = discarded }) q

unfoldable pub reset_all_exhausted : Dlq → Dlq
reset_all_exhausted q =
    update (λ e. is_status exhausted e.status) (λ e. record e { status = pending; retry_count = 0 })
      q

-- `ORDER BY id ASC LIMIT ?`
unfoldable pub get_pending : ℕ → Dlq → List Entry
get_pending limit q = take limit (keep (λ e. is_status pending e.status) q.entries)

unfoldable pub get_all : ℕ → Dlq → List Entry
get_all limit q = take limit (reverse q.entries)

abbrev total_events : List Entry → ℕ
total_events [] = 0
total_events (e ∷ es) = e.event_count + total_events es

-- The row of one status in `stats`: its entries and its events.
unfoldable pub stats : Dlq → Status → ℕ × ℕ
stats q s =
    let rows = keep (λ e. is_status s e.status) q.entries in (length rows, total_events rows)

unfoldable pub pending_count : Dlq → ℕ
pending_count q = length (keep (λ e. is_status pending e.status) q.entries)

abbrev pub find_id : ℕ → List Entry → Option Entry
find_id i [] = none
find_id i (e ∷ es) = if has_id i e then some e else find_id i es

module _ (py : Printing) where
  unfoldable pub push : Text → Text → List ChangeEvent → Text → Dlq → ℕ × Dlq
  unfolding serialize_event
  push source table batch error q = (
    q.next_id,
    record q {
      entries = q.entries ++ (new_entry q source table (map (serialize_event py) batch) error ∷ []);
      next_id = q.next_id + 1;
    },
  )

  -- `now` is what `datetime.now` gives for an event without a time stamp.
  unfoldable pub get_events : ℕ → ℕ → Dlq → Outcome (List ChangeEvent)
  unfolding deserialize_all
  get_events now i q = elim (find_id i q.entries) [
    | none ↦ ok []
    | some e ↦ deserialize_all py now e.events
  ]
