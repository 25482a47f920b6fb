-- ===== src/Engine/Drift.antt =====
-- `_check_schema_drift` of core/engine.py.
use dremio_cdc.Prelude.{
  ℕ, Bool, true, false, not, ◌&&◌, Option, none, some, List, [], ◌∷◌, ◌++◌, map, Text, text_eq,
  pair_eq, ◌==◌, length, keep, if◌then◌else◌,
}
use dremio_cdc.Prelude.Chars.{codes, to_decimal, join}
use dremio_cdc.Prelude.Dict.{Dict, lookup, insert, has_key}
use dremio_cdc.Event.{ColumnSchema}
use dremio_cdc.Outcome.{Outcome, ok, raised}
use dremio_cdc.Schemas
use dremio_cdc.Schemas.{SchemaStore}
use dremio_cdc.Status
use dremio_cdc.Engine.Worker.{Env, DriftAction, Config, Worker, Exec, pure, modify, ◌>>◌, key_of}

-- `{c.name: c.data_type for c in schema}`
abbrev pub type_map : List ColumnSchema → Dict Text Text → Dict Text Text
type_map [] m = m
type_map (c ∷ cs) m = type_map cs (insert c.name c.data_type m)

abbrev pub types : List ColumnSchema → Dict Text Text
types schema = type_map schema []

unfoldable pub added : List ColumnSchema → List ColumnSchema → List ColumnSchema
added stored current = keep (λ c. not (has_key c.name (types stored))) current

unfoldable pub removed : List ColumnSchema → List ColumnSchema → List ColumnSchema
removed stored current = keep (λ c. not (has_key c.name (types current))) stored

abbrev changed_type : Dict Text Text → ColumnSchema → Bool
changed_type m c = elim (lookup c.name m) [ none ↦ false | some t ↦ not (t == c.data_type) ]

unfoldable pub type_changed : List ColumnSchema → List ColumnSchema → List ColumnSchema
type_changed stored current = keep (changed_type (types stored)) current

abbrev is_empty {ℓ} : {A : Type ℓ} → List A → Bool
is_empty [] = true
is_empty (x ∷ xs) = false

-- One part of the message, with the sign, the number and the names of its columns.
abbrev part : ℕ → List ColumnSchema → List Text
part sign [] = []
part sign (c ∷ cs) =
    (sign
      ∷ (to_decimal (length (c ∷ cs))
          ++ (codes ": " ++ join (codes ", ") (map (λ d. d.name) (c ∷ cs)))))
    ∷ []

abbrev changes : List ColumnSchema → List Text
changes [] = []
changes (c ∷ cs) = (b'~' ∷ (to_decimal (length (c ∷ cs)) ++ codes " type change(s)")) ∷ []

unfoldable pub drift_message : List ColumnSchema → List ColumnSchema → Text
unfolding added removed type_changed to_decimal
drift_message stored current = join (codes "; ") (
    part b'+' (added stored current)
    ++ (part b'-' (removed stored current) ++ changes (type_changed stored current)))

unfoldable pub has_drift : List ColumnSchema → List ColumnSchema → Bool
unfolding added removed type_changed
has_drift stored current = not (
    is_empty (added stored current)
    && (is_empty (removed stored current) && is_empty (type_changed stored current)))

module _ (env : Env) (cfg : Config) where
  abbrev pub set_schema : List ColumnSchema → Worker env → Worker env
  set_schema current w = record w {
    schemas = elim w.schemas [ none ↦ none | some st ↦ some (Schemas.set (key_of cfg) current st) ];
  }

  -- `hasattr(self.sink, "evolve_schema")`
  abbrev pub run_evolve :
      Option (Text → List ColumnSchema → env.sink_api.Sink → Outcome (Unit {0}) × env.sink_api.Sink)
      → List ColumnSchema
      → Exec env (Unit {0})
  run_evolve none current w = (ok tt, w)
  run_evolve (some evolve) current w =
      let (r, s) = evolve cfg.table current w.sink in (r, record w { sink = s })

  -- `auto_migrate` with a column to add.
  abbrev pub migrate : List ColumnSchema → List ColumnSchema → Exec env (Unit {0})
  migrate [] current = pure tt
  migrate (c ∷ cs) current = run_evolve env.evolve_schema current

  unfoldable pub react : DriftAction → List ColumnSchema → List ColumnSchema → Exec env (Unit {0})
  react DriftAction.auto_migrate new current = migrate new current
  react DriftAction.pause new current = modify (λ w. record w {
    stopped = true;
    status = Status.set_state cfg.source_name cfg.table Status.State.paused none w.status;
  })
  react _ new current = pure tt

  unfoldable pub report_drift : List ColumnSchema → List ColumnSchema → Exec env (Unit {0})
  report_drift stored current = do
    modify (λ w. record w {
      status =
          Status.set_drift cfg.source_name cfg.table (some (drift_message stored current)) w.status;
    })
    react cfg.drift_action (added stored current) current
    modify (set_schema current)

  abbrev pub compare_schema : List ColumnSchema → Option (List ColumnSchema) → Exec env (Unit {0})
  compare_schema current none = modify (set_schema current)
  compare_schema current (some stored) =
      if has_drift stored current then report_drift stored current else pure tt

  abbrev pub stored_schema : Worker env → Option (List ColumnSchema)
  stored_schema w = elim w.schemas [ none ↦ none | some st ↦ Schemas.get (key_of cfg) st ]

  unfoldable pub check_schema_drift : Exec env (Unit {0})
  check_schema_drift w = elim (env.get_schema cfg.table w.source) [
    | raised message ↦ (ok tt, w)
    | ok current ↦ compare_schema current (stored_schema w) w
  ]
