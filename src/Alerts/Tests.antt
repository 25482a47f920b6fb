-- ===== src/Alerts/Tests.antt =====
-- The theorem about core/alert_manager.py at a manager that has fired nothing.
use dremio_cdc.Prelude.{true, none, [], ◌∷◌, arith}
use dremio_cdc.Prelude.Chars.{codes}
use dremio_cdc.Status.{StatusStore, EngineState, State, fresh}
use dremio_cdc.Alerts.{Formats, AlertManager, loop}
use dremio_cdc.Alerts.Cooldown.{IsQuiet, loop-IsQuiet}

abbrev formats : Formats
formats = record { one_digit = λ n. codes "1.0"; no_digit = λ n. codes "60" }

abbrev quiet : AlertManager
quiet = record {
  enabled = true;
  lag_threshold = 6000;
  error_threshold = 5;
  cooldown = 300;
  last_fired = [];
  recent = [];
}

quiet-IsQuiet : IsQuiet ([], quiet)
quiet-IsQuiet = record { spaced = tt; known = tt; few = omega arith }

-- A worker in the state error.
abbrev broken : StatusStore
broken = record {
  workers =
      (codes "pg/people", record (fresh 0 (codes "pg") (codes "people")) { state = State.error })
      ∷ [];
  engine_state = EngineState.running;
  engine_started_at = none;
}

loop-IsQuiet_example :
    IsQuiet (loop formats ((1000, broken) ∷ (1100, broken) ∷ (1400, broken) ∷ []) ([], quiet))
loop-IsQuiet_example =
    loop-IsQuiet formats ((1000, broken) ∷ (1100, broken) ∷ (1400, broken) ∷ []) ([], quiet)
      quiet-IsQuiet
