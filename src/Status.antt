-- ===== src/Status.antt =====
-- core/status_store.py: what each worker reports. Times are microseconds since the epoch.
pub mod Laws
mod Tests
use dremio_cdc.Prelude.{
  ℕ, ◌+◌, ◌-◌, ◌*◌, ◌/◌, ◌%◌, Bool, true, false, Option, none, some, List, [], ◌∷◌, ◌++◌, map, Text,
  text_eq, length, drop, ltb, leb, ◌=ℕ◌, if◌then◌else◌, keep,
}
use dremio_cdc.Prelude.Int.{ℤ, pos, negsuc}
use dremio_cdc.Prelude.Dict.{Dict, lookup, insert, values}

pub data State : Type 0 where
  idle snapshotting streaming paused error : State

pub record WorkerStatus : Type 0 where
  pub source_name : Text
  pub table : Text
  pub state : State
  pub events_written : ℕ
  pub error_count : ℕ
  pub last_source_ts : Option ℕ
  pub last_flush_ts : Option ℕ
  pub last_flush_duration : ℕ
  pub last_offset : Option Text
  pub error : Option Text
  pub started_at : Option ℕ
  pub events_last_minute : ℕ
  pub minute_bucket : ℕ
  pub bucket_start : ℕ
  pub rate_history : List (ℕ × ℕ)
  pub current_batch_size : ℕ
  pub schema_drift : Option Text

pub data EngineState : Type 0 where
  stopped running stopping other : EngineState

pub record StatusStore : Type 0 where
  pub workers : Dict Text WorkerStatus
  pub engine_state : EngineState
  pub engine_started_at : Option ℕ

unfoldable pub set_engine_state : ℕ → EngineState → StatusStore → StatusStore
set_engine_state now EngineState.running st = record st {
  engine_state = EngineState.running;
  engine_started_at = elim st.engine_started_at [ none ↦ some now | some t ↦ some t ];
}
set_engine_state now EngineState.stopped st = record st {
  engine_state = EngineState.stopped;
  engine_started_at = none;
}
set_engine_state now state st = record st { engine_state = state }

abbrev pub get_engine_state : StatusStore → EngineState
get_engine_state st = st.engine_state

-- `_key`
abbrev pub key : Text → Text → Text
key source table = source ++ (b'/' ∷ table)

abbrev pub fresh : ℕ → Text → Text → WorkerStatus
fresh now source table = record {
  source_name = source;
  table = table;
  state = State.idle;
  events_written = 0;
  error_count = 0;
  last_source_ts = none;
  last_flush_ts = none;
  last_flush_duration = 0;
  last_offset = none;
  error = none;
  started_at = some now;
  events_last_minute = 0;
  minute_bucket = 0;
  bucket_start = now;
  rate_history = [];
  current_batch_size = 500;
  schema_drift = none;
}

unfoldable pub register : ℕ → Text → Text → StatusStore → StatusStore
register now source table st = record st {
  workers = insert (key source table) (fresh now source table) st.workers;
}

-- `w = self._workers.get(key)`, and a change of `w` if there is one.
abbrev pub with_worker : Text → (WorkerStatus → WorkerStatus) → StatusStore → StatusStore
with_worker k change st = elim (lookup k st.workers) [
  | none ↦ st
  | some w ↦ record st { workers = insert k (change w) st.workers }
]

-- `if error: w.error = error`: None and the empty text are falsy.
abbrev new_error : Option Text → Option Text → Option Text
new_error none old = old
new_error (some []) old = old
new_error (some (c ∷ t)) old = some (c ∷ t)

unfoldable pub set_state : Text → Text → State → Option Text → StatusStore → StatusStore
set_state source table state message st =
    with_worker (key source table)
      (λ w. record w { state = state; error = new_error message w.error }) st

abbrev pub or_else {ℓ} : {A : Type ℓ} → Option A → Option A → Option A
or_else none b = b
or_else (some a) b = some a

-- The microseconds of a minute.
abbrev pub minute : ℕ
minute = 60 * 1000000

-- `deque(maxlen=20).append`
abbrev pub append_rate : List (ℕ × ℕ) → ℕ × ℕ → List (ℕ × ℕ)
append_rate history sample = let all = history ++ (sample ∷ []) in drop (length all - 20) all

-- The bucket of the rolling rate, closed if its minute is over.
unfoldable pub roll : ℕ → WorkerStatus → WorkerStatus
roll now w =
    if ltb minute (now - w.bucket_start)
    then record w {
      events_last_minute = w.minute_bucket;
      rate_history = append_rate w.rate_history (w.bucket_start, w.minute_bucket);
      minute_bucket = 0;
      bucket_start = now;
    }
    else w

unfoldable pub flushed : ℕ → ℕ → Option Text → Option ℕ → ℕ → WorkerStatus → WorkerStatus
unfolding roll
flushed now count offset source_ts duration w =
    let w' = roll now (record w {
      events_written = w.events_written + count;
      last_flush_ts = some now;
      last_flush_duration = duration;
      last_source_ts = or_else source_ts w.last_source_ts;
      last_offset = or_else offset w.last_offset;
    }) in
    record w' { minute_bucket = w'.minute_bucket + count }

-- `offset` is the `str` of the offset, if it is not None.
unfoldable pub record_flush :
    ℕ → Text → Text → ℕ → Option Text → Option ℕ → ℕ → StatusStore → StatusStore
record_flush now source table count offset source_ts duration st =
    with_worker (key source table) (flushed now count offset source_ts duration) st

unfoldable pub record_error : Text → Text → Option Text → StatusStore → StatusStore
record_error source table message st =
    with_worker (key source table)
      (λ w. record w { error_count = w.error_count + 1; error = new_error message w.error }) st

unfoldable pub set_batch_size : Text → Text → ℕ → StatusStore → StatusStore
set_batch_size source table size st =
    with_worker (key source table) (λ w. record w { current_batch_size = size }) st

unfoldable pub set_drift : Text → Text → Option Text → StatusStore → StatusStore
set_drift source table summary st =
    with_worker (key source table) (λ w. record w { schema_drift = summary }) st

-- `round(d, 2)` of a number of microseconds, in hundredths of a second; a tie goes to the even one.
abbrev pub round_hundredths : ℕ → ℕ
round_hundredths d =
    let q = d / 10000 in
    let r = d % 10000 in if ltb r 5000 then q else if ltb 5000 r then q + 1 else q + q % 2

-- `round(a - b, 2)`
abbrev pub seconds_between : ℕ → ℕ → ℤ
seconds_between a b =
    if leb b a then pos (round_hundredths (a - b)) else negative (round_hundredths (b - a))
  where
    negative : ℕ → ℤ
    negative ℕ.zero = pos 0
    negative (ℕ.suc n) = negsuc n

-- `if w.last_source_ts`: None and 0 are falsy.
abbrev truthy : Option ℕ → Option ℕ
truthy none = none
truthy (some t) = if t =ℕ 0 then none else some t

abbrev is_active : State → Bool
is_active State.streaming = true
is_active State.snapshotting = true
is_active _ = false

-- `lag_s` in hundredths of a second.
unfoldable pub lag : ℕ → WorkerStatus → Option ℤ
lag now w = elim (truthy w.last_source_ts) [
  | none ↦ none
  | some t ↦ if is_active w.state then some (seconds_between now t) else none
]

abbrev pipeline_of : Option ℕ → Option ℕ → Option ℤ
pipeline_of (some t) (some f) = some (seconds_between f t)
pipeline_of _ _ = none

unfoldable pub pipeline_lag : WorkerStatus → Option ℤ
pipeline_lag w = pipeline_of (truthy w.last_source_ts) (truthy w.last_flush_ts)

unfoldable pub events_per_minute : ℕ → WorkerStatus → ℕ
events_per_minute now w =
    if leb (now - w.bucket_start) minute then w.minute_bucket else w.events_last_minute

-- An item of `snapshot()["workers"]`: the worker, and what is computed of it.
pub record View : Type 0 where
  pub worker : WorkerStatus
  pub rate : ℕ
  pub lag_seconds : Option ℤ
  pub pipeline_lag_seconds : Option ℤ

pub record Snapshot : Type 0 where
  pub engine_state : EngineState
  pub engine_started_at : Option ℕ
  pub workers : List View
  pub total_events : ℕ
  pub total_errors : ℕ
  pub active_workers : ℕ
  pub total_workers : ℕ

abbrev view : ℕ → WorkerStatus → View
view now w = record {
  worker = w;
  rate = events_per_minute now w;
  lag_seconds = lag now w;
  pipeline_lag_seconds = pipeline_lag w;
}

abbrev pub sum_of : (WorkerStatus → ℕ) → List WorkerStatus → ℕ
sum_of f [] = 0
sum_of f (w ∷ ws) = f w + sum_of f ws

abbrev is_streaming : State → Bool
is_streaming State.streaming = true
is_streaming _ = false

unfoldable pub snapshot : ℕ → StatusStore → Snapshot
unfolding lag pipeline_lag events_per_minute
snapshot now st =
    let ws = values st.workers in
    record {
      engine_state = st.engine_state;
      engine_started_at = st.engine_started_at;
      workers = map (view now) ws;
      total_events = sum_of (λ w. w.events_written) ws;
      total_errors = sum_of (λ w. w.error_count) ws;
      active_workers = length (keep (λ w. is_streaming w.state) ws);
      total_workers = length ws;
    }
