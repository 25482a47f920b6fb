-- ===== src/Engine/Wiring.antt =====
-- CDCEngine of core/engine.py: which sink each worker gets, and how the engine starts and stops.
pub mod Wired
pub mod Expected
pub mod Started
mod Tests
use dremio_cdc.Prelude.{
  ℕ, Bool, true, false, Option, none, some, List, [], ◌∷◌, ◌++◌, map, Text, text_eq, ◌==◌, contains,
  if◌then◌else◌,
}
use dremio_cdc.Prelude.Dict.{Dict, lookup, insert, values}
use dremio_cdc.Prelude.Chars.{codes, lower}
use dremio_cdc.Outcome.{Outcome, ok, raised, ◌>>=◌}
use dremio_cdc.Event.{Value}
use dremio_cdc.Status.{StatusStore, EngineState, set_engine_state}

-- Where a sink writes to: DremioSink or IcebergSink, and its namespace.
pub data SinkMode : Type 0 where
  dremio iceberg : SinkMode

pub record Sink : Type 0 where
  pub mode : SinkMode
  pub namespace : Text

-- The configuration of a source. `masking` is the rules as they are written.
pub record SourceConf : Type 0 where
  pub source_type : Text
  pub name : Text
  pub tables : List Text
  pub target_namespace : Option Text
  pub masking : List (Text × Value)

-- `target_namespace` of the sections `dremio` and `iceberg`.
pub record EngineConf : Type 0 where
  pub sink_mode : Text
  pub dremio_namespace : Option Text
  pub iceberg_namespace : Option Text

pub record TableWorker : Type 0 where
  pub source : Text
  pub table : Text
  pub sink : Sink
  pub masker : Option (List (Text × Value))

pub record CdcEngine : Type 0 where
  pub sinks : Dict Text Sink
  pub workers : List TableWorker

abbrev pub or_cdc : Option Text → Text
or_cdc none = codes "cdc"
or_cdc (some ns) = ns

-- `sc.get("target_namespace") or global_ns`
abbrev pub or_global : Text → Option Text → Text
or_global ns none = ns
or_global ns (some []) = ns
or_global ns (some (c ∷ t)) = c ∷ t

abbrev pub masker_of : List (Text × Value) → Option (List (Text × Value))
masker_of [] = none
masker_of (r ∷ rules) = some (r ∷ rules)

-- What a source's class and its `connect` do, and the types that there are.
pub record Sources : Type 0 where
  pub registry : List Text
  pub connect : SourceConf → Outcome (Unit {0})

module _ (cfg : EngineConf) where
  abbrev pub mode_of : SinkMode
  mode_of = if lower cfg.sink_mode == codes "iceberg" then SinkMode.iceberg else SinkMode.dremio

  abbrev pub global_namespace : Text
  global_namespace = or_cdc cfg.dremio_namespace

  -- The sink that is made first. In the mode `iceberg` its namespace is that of the section
  -- `iceberg`, whatever name it is kept under.
  unfoldable pub global_sink : Sink
  global_sink = elim mode_of [
    | dremio ↦ record { mode = SinkMode.dremio; namespace = global_namespace }
    | iceberg ↦ record { mode = SinkMode.iceberg; namespace = or_cdc cfg.iceberg_namespace }
  ]

  abbrev pub new_sink : Text → Sink
  new_sink ns = record { mode = mode_of; namespace = ns }

  -- `_get_sink`
  abbrev pub kept_or_new : Text → Dict Text Sink → Option Sink → Sink × Dict Text Sink
  kept_or_new ns sinks (some s) = (s, sinks)
  kept_or_new ns sinks none = (new_sink ns, insert ns (new_sink ns) sinks)

  unfoldable pub get_sink : Text → Dict Text Sink → Sink × Dict Text Sink
  get_sink ns sinks = kept_or_new ns sinks (lookup ns sinks)

  abbrev pub workers_of : SourceConf → Sink → List TableWorker
  workers_of sc sink =
      map (λ t. record { source = sc.name; table = t; sink = sink; masker = masker_of sc.masking })
        sc.tables

  abbrev pub namespace_of : SourceConf → Text
  namespace_of sc = or_global global_namespace sc.target_namespace

  module _ (env : Sources) where
    abbrev pub with_workers : SourceConf → CdcEngine → Sink × Dict Text Sink → CdcEngine
    with_workers sc e (sink, sinks) = record {
      sinks = sinks;
      workers = e.workers ++ workers_of sc sink;
    }

    -- An unknown type raises, and so may `connect`; what was connected before stays so.
    unfoldable pub add_source : SourceConf → CdcEngine → Outcome CdcEngine
    unfolding get_sink
    add_source sc e =
        if contains (lower sc.source_type) env.registry
        then env.connect sc >>= (λ u. ok (with_workers sc e (get_sink (namespace_of sc) e.sinks)))
        else raised (codes "Unknown source type")

    unfoldable pub add_sources : List SourceConf → CdcEngine → Outcome CdcEngine
    unfolding add_source
    add_sources [] e = ok e
    add_sources (sc ∷ scs) e = add_source sc e >>= add_sources scs

    unfoldable pub build : List SourceConf → Outcome CdcEngine
    unfolding add_sources global_sink
    build scs =
        add_sources scs record { sinks = (global_namespace, global_sink) ∷ []; workers = [] }

-- A running engine: the sinks that are connected, the workers that were started, those told to stop,
-- and the sink of the worker of the dead letter queue.
pub record Running : Type 0 where
  pub connected : List Sink
  pub started : List TableWorker
  pub told : List TableWorker
  pub dlq_sink : Option Sink
  pub status : StatusStore

module _ (connect : Sink → Outcome (Unit {0})) where
  abbrev pub go_on :
      Sink
      → Outcome (Unit {0})
      → (Running → Outcome (Unit {0}) × Running)
      → Running
      → Outcome (Unit {0}) × Running
  go_on s (ok u) later r = later (record r { connected = r.connected ++ (s ∷ []) })
  go_on s (raised message) later r = (raised message, r)

  unfoldable pub connect_all :
      List Sink → (Running → Outcome (Unit {0}) × Running) → Running → Outcome (Unit {0}) × Running
  connect_all [] later r = later r
  connect_all (s ∷ ss) later r = go_on s (connect s) (connect_all ss later) r

  -- `start`; the worker of the queue has the sink of the global namespace.
  unfoldable pub start : EngineConf → ℕ → CdcEngine → Running → Outcome (Unit {0}) × Running
  unfolding connect_all global_sink
  start cfg now e = connect_all (values e.sinks) (λ r. (
    ok tt,
    record r {
      started = r.started ++ e.workers;
      dlq_sink = some (global_sink cfg);
      status = set_engine_state now EngineState.running r.status;
    },
  ))

-- `stop`: every worker is told; the state changes when the threads were waited for.
unfoldable pub stop : ℕ → CdcEngine → Running → Running
stop now e r = record r {
  told = r.told ++ e.workers;
  dlq_sink = none;
  status = set_engine_state now EngineState.stopped r.status;
}
