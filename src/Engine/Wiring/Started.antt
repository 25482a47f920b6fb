-- ===== src/Engine/Wiring/Started.antt =====
-- What runs when CDCEngine of core/engine.py has started.
use dremio_cdc.Prelude.{List, ◌++◌}
use dremio_cdc.Outcome.{Outcome}
use dremio_cdc.Engine.Wiring.{Sink, Running}
use dremio_cdc.Engine.Wiring.Wired.{Wired}

module _ (connect : Sink → Outcome (Unit {0})) where
  abbrev Next : Type 0
  Next = Running → Outcome (Unit {0}) × Running

  abbrev now_connected : List Sink → Running → Running
  now_connected ss r = record r { connected = r.connected ++ ss }
