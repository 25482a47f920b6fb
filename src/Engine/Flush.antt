-- ===== src/Engine/Flush.antt =====
-- `TableWorker._flush` of core/engine.py.
pub mod Frame
pub mod Safety
use dremio_cdc.Prelude.{
  ℕ, ◌+◌, ◌-◌, ◌%◌, min, Bool, true, false, ◌&&◌, Option, none, some, List, [], ◌∷◌, map, Text,
  text_eq, ◌==◌, length, ◌=ℕ◌, if◌then◌else◌,
}
use dremio_cdc.Prelude.Chars.{codes}
use dremio_cdc.Prelude.Int.{ℤ}
use dremio_cdc.Event.{Value, ChangeEvent, is_none, str}
use dremio_cdc.Outcome.{Outcome, ok, raised}
use dremio_cdc.Masking
use dremio_cdc.Dlq
use dremio_cdc.Dlq.{Dlq}
use dremio_cdc.Dlq.Serial.{offset_text}
use dremio_cdc.Schemas.{SchemaStore}
use dremio_cdc.Status
use dremio_cdc.Status.{View}
use dremio_cdc.Engine.Tuner.{Tuner, tune}
use dremio_cdc.Engine.Worker.{
  Env, Config, Worker, Exec, pure, gets, modify, continue, ◌>>=◌, ◌>>◌, key_of, time,
}
use dremio_cdc.Engine.Drift.{check_schema_drift}

-- `min(ev.timestamp.timestamp() for ... if ev.timestamp is not None, default=None)`
abbrev pub least : Option ℕ → Option ℕ → Option ℕ
least none b = b
least (some a) none = some a
least (some a) (some b) = some (min a b)

unfoldable pub source_ts : List ChangeEvent → Option ℕ
source_ts [] = none
source_ts (ev ∷ batch) = least ev.timestamp (source_ts batch)

module _ (env : Env) (cfg : Config) where
  -- `if self._masker is not None`: without rules nothing is masked.
  unfoldable pub mask_batch : List ChangeEvent → List ChangeEvent
  mask_batch batch = Masking.apply_batch env.py env.hash cfg.masker cfg.table batch

  unfoldable pub write : List ChangeEvent → Exec env (Unit {0})
  write batch w = let (r, s) = env.sink_api.write_batch batch w.sink in (r, record w { sink = s })

  abbrev pub store : Option env.offset_api.Store → Worker env → Outcome (Unit {0}) × Worker env
  store none w = (raised (codes "offset store"), w)
  store (some s) w = (ok tt, record w { offsets = s })

  -- `if offset is not None: self.offset_store.set(...)`
  unfoldable pub commit_offset : Value → Exec env (Unit {0})
  commit_offset offset w =
      if is_none offset
      then (ok tt, w)
      else store (env.offset_api.set (key_of cfg) offset w.offsets) w

  unfoldable pub notify_source : Value → Exec env (Unit {0})
  notify_source offset w =
      let (r, s) = env.on_batch_committed cfg.table offset w.source in (r, record w { source = s })

  abbrev pub find_lag : List View → Option ℤ
  find_lag [] = none
  find_lag (v ∷ views) =
      if v.worker.source_name == cfg.source_name && v.worker.table == cfg.table
      then v.lag_seconds
      else find_lag views

  abbrev pub use_tuner : ℕ → ℕ → ℕ → Option Tuner → Worker env → Worker env
  use_tuner count duration now none w = w
  use_tuner count duration now (some t) w =
      let lag = find_lag (Status.snapshot now w.status).workers in
      let t' =
        tune env.rate (record { flush_count = count; flush_duration = duration; lag = lag }) t in
      record w {
        tuner = some t';
        batch_size = t'.batch_size;
        status = Status.set_batch_size cfg.source_name cfg.table t'.batch_size w.status;
      }

  abbrev pub drift_due : Option SchemaStore → ℕ → Exec env (Unit {0})
  drift_due none n w = (ok tt, w)
  drift_due (some schemas) n w =
      if cfg.drift_every =ℕ 0
      then (raised (codes "integer modulo by zero"), w)
      else if n % cfg.drift_every =ℕ 0
      then check_schema_drift env cfg w
      else (ok tt, w)

  -- `_flush_count += 1`, and a check of the schema at every so many flushes.
  unfoldable pub count_flush : Exec env (Unit {0})
  count_flush w = let n = w.flush_count + 1 in drift_due w.schemas n (record w { flush_count = n })

  -- What follows a write that succeeded. The Transform Studio trigger is left out: it catches what
  -- it raises and changes nothing here.
  unfoldable pub after_write : List ChangeEvent → Value → Option ℕ → ℕ → Exec env (Unit {0})
  after_write batch offset ts start = do
    end ← time env
    commit_offset offset
    notify_source offset
    now ← time env
    modify (λ w. record w {
      status =
          Status.record_flush now cfg.source_name cfg.table (length batch)
            (offset_text env.py offset) ts (end - start) w.status;
    })
    snap ← time env
    modify (λ w. use_tuner (length batch) (end - start) snap w.tuner w)
    count_flush

  abbrev pub park_in : List ChangeEvent → Text → Option Dlq → Option Dlq
  park_in batch message none = none
  park_in batch message (some q) =
      some (Dlq.push env.py cfg.source_name cfg.table batch message q).1

  -- The handler of `except Exception`: with no queue it sleeps and the batch is gone.
  unfoldable pub park : List ChangeEvent → Text → Worker env → Worker env
  park batch message w = record w {
    status = Status.record_error cfg.source_name cfg.table (some message) w.status;
    dlq = park_in batch message w.dlq;
  }

  abbrev pub settle : List ChangeEvent → Outcome (Unit {0}) × Worker env → Worker env
  settle batch (ok done, w) = w
  settle batch (raised message, w) = park batch message w

  abbrev pub try_flush : List ChangeEvent → Value → Option ℕ → Exec env (Unit {0})
  try_flush batch offset ts = do start ← time env; write batch; after_write batch offset ts start

  unfoldable pub flush : List ChangeEvent → Value → Worker env → Worker env
  flush [] offset w = w
  flush (ev ∷ evs) offset w =
      let batch = mask_batch (ev ∷ evs) in
      settle batch (try_flush batch offset (source_ts (ev ∷ evs)) w)
