-- ===== src/Engine/Wiring/Tests.antt =====
-- CDCEngine of core/engine.py on concrete input: two sources, one with a namespace of its own.
use dremio_cdc.Prelude.{ℕ, ◌≡◌, refl, Option, none, some, List, [], ◌∷◌, map, Text, Text-discrete}
use dremio_cdc.Prelude.Chars.{codes}
use dremio_cdc.Outcome.{Outcome, ok, raised}
use dremio_cdc.Status.{EngineState}
use dremio_cdc.Engine.Wiring.{
  SinkMode, Sink, SourceConf, EngineConf, CdcEngine, Sources, Running, build, start,
}
use dremio_cdc.Engine.Wiring.Expected.{expected}

abbrev conf : EngineConf
conf = record { sink_mode = codes "Dremio"; dremio_namespace = none; iceberg_namespace = none }

abbrev sources : Sources
sources = record { registry = codes "postgres" ∷ codes "oracle" ∷ []; connect = λ sc. ok tt }

abbrev source : Text → Text → List Text → Option Text → SourceConf
source type name tables namespace = record {
  source_type = type;
  name = name;
  tables = tables;
  target_namespace = namespace;
  masking = [];
}

abbrev two_sources : List SourceConf
two_sources =
    source (codes "Postgres") (codes "pg") (codes "a" ∷ codes "b" ∷ []) none
    ∷ source (codes "oracle") (codes "ora") (codes "E" ∷ []) (some (codes "hr"))
    ∷ []

abbrev sink_in : Text → Sink
sink_in ns = record { mode = SinkMode.dremio; namespace = ns }

abbrev built : CdcEngine
built = record {
  sinks = (codes "cdc", sink_in (codes "cdc")) ∷ (codes "hr", sink_in (codes "hr")) ∷ [];
  workers = expected conf two_sources;
}

abbrev idle : Running
idle = record {
  connected = [];
  started = [];
  told = [];
  dlq_sink = none;
  status = record { workers = []; engine_state = EngineState.stopped; engine_started_at = none };
}

abbrev connects : Sink → Outcome (Unit {0})
connects s = ok tt

-- What was parked from a source with a namespace of its own is replayed into the global one.
replays_into_global : (start connects conf 5 built idle).1.dlq_sink ≡ some (sink_in (codes "cdc"))
unfolding start Text-discrete dremio_cdc.Prelude.Chars.to_lower
replays_into_global = refl

-- An unknown type raises.
unknown_type :
    build conf sources (source (codes "db9") (codes "x") [] none ∷ [])
    ≡ raised (codes "Unknown source type")
unfolding build Text-discrete dremio_cdc.Prelude.Chars.to_lower
unknown_type = refl
