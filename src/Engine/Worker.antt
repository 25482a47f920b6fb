-- ===== src/Engine/Worker.antt =====
-- The state of a `TableWorker` of core/engine.py, and calls that change it and may raise.
use dremio_cdc.Prelude.{ℕ, ◌+◌, Bool, Option, List, Text, nat_eq}
use dremio_cdc.Prelude.Dict.{Dict}
use dremio_cdc.Event.{Value, ColumnSchema, Printing}
use dremio_cdc.Outcome.{Outcome, ok, raised, SinkApi}
use dremio_cdc.Offsets.{OffsetApi, Key}
use dremio_cdc.Schemas.{SchemaStore}
use dremio_cdc.Status.{StatusStore}
use dremio_cdc.Dlq.{Dlq}
use dremio_cdc.Masking.{Rules, Hashing}
use dremio_cdc.Engine.Tuner.{Tuner}

-- What the worker calls: the sink, the offset store, the source with a state of its own, the clock
-- by its readings in order, the product of floats in the tuner, and Python's printing and hashing. A sink without `evolve_schema`
-- (core/iceberg_sink.py has none) is `none` there.
pub record Env : Type 1 where
  pub sink_api : SinkApi
  pub offset_api : OffsetApi
  pub Source : Type 0
  pub get_schema : Text → Source → Outcome (List ColumnSchema)
  pub on_batch_committed : Text → Value → Source → Outcome (Unit {0}) × Source
  pub evolve_schema :
      Option (Text → List ColumnSchema → sink_api.Sink → Outcome (Unit {0}) × sink_api.Sink)
  pub clock : ℕ → ℕ
  pub rate : ℕ → ℕ → ℕ → ℕ
  pub py : Printing
  pub hash : Hashing

pub data DriftAction : Type 0 where
  alert auto_migrate pause other : DriftAction

-- What `__init__` sets and nothing changes.
pub record Config : Type 0 where
  pub source_name : Text
  pub table : Text
  pub batch_timeout : ℕ
  pub do_snapshot : Bool
  pub drift_action : DriftAction
  pub drift_every : ℕ
  pub masker : Dict Text Rules

abbrev pub key_of : Config → Key
key_of cfg = (cfg.source_name, cfg.table)

-- `ticks` counts the readings of the clock. A worker may have no tuner, no schema store and no
-- dead letter queue.
pub record Worker (env : Env) : Type 0 where
  pub batch_size : ℕ
  pub tuner : Option Tuner
  pub flush_count : ℕ
  pub stopped : Bool
  pub sink : env.sink_api.Sink
  pub source : env.Source
  pub offsets : env.offset_api.Store
  pub schemas : Option SchemaStore
  pub status : StatusStore
  pub dlq : Option Dlq
  pub ticks : ℕ

-- A call on the worker: what was written before a raise stays written.
abbrev pub Exec : Env → Type 0 → Type 0
Exec env A = Worker env → Outcome A × Worker env

module _ {env : Env} {A : Type 0} where
  unfoldable pub pure : A → Exec env A
  pure a w = (ok a, w)

  unfoldable pub gets : (Worker env → A) → Exec env A
  gets f w = (ok (f w), w)

unfoldable pub modify : {env : Env} → (Worker env → Worker env) → Exec env (Unit {0})
modify f w = (ok tt, f w)

abbrev pub continue :
    {env : Env} {A B : Type 0} → Outcome A → (A → Exec env B) → Worker env → Outcome B × Worker env
continue (ok a) f w = f a w
continue (raised message) f w = (raised message, w)

infixl 10 ◌>>=◌ ◌>>◌
-- Opening this opens `pure`, `gets` and `modify` too.
unfoldable pub ◌>>=◌ : {env : Env} {A B : Type 0} → Exec env A → (A → Exec env B) → Exec env B
unfolding pure gets modify
◌>>=◌ m f w = let (r, w') = m w in continue r f w'

abbrev pub ◌>>◌ : {env : Env} {A B : Type 0} → Exec env A → Exec env B → Exec env B
m >> n = m >>= λ _. n

-- `time.time()`
unfoldable pub time : (env : Env) → Exec env ℕ
time env w = (ok (env.clock w.ticks), record w { ticks = w.ticks + 1 })
