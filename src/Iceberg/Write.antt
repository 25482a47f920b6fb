-- ===== src/Iceberg/Write.antt =====
-- The writes of core/iceberg_sink.py.
use dremio_cdc.Prelude.{
  ℕ, suc, Bool, true, false, not, none, some, List, [], ◌∷◌, ◌++◌, keep, Text, text_eq, contains,
  if◌then◌else◌,
}
use mathlib.Core.List.{reverse}
use dremio_cdc.Prelude.Dict.{Dict}
use dremio_cdc.Event.{Value, Row, ColumnSchema, ChangeEvent, row, primary_keys, is_upsert}
use dremio_cdc.Outcome.{Outcome, ok, raised}
use dremio_cdc.Sink.Dremio.{group}
use dremio_cdc.Iceberg.{
  cdc_meta, table_identifier, dremio_table_path, Catalog, WriteMode, enrich, rows_to_delete,
  conditions, newest,
}

-- `clock` gives for each table the readings of `datetime.now` in a batch, in their order.
module _ (catalog : Catalog) (namespace : Text) (mode : WriteMode) (clock : Text → ℕ → ℕ) where
  pub record IcebergSink : Type 0 where
    pub known_tables : List Text
    pub state : catalog.State

  abbrev pub Step : Type 0
  Step = IcebergSink → Outcome (Unit {0}) × IcebergSink

  abbrev pub on_catalog : (catalog.State → Outcome (Unit {0}) × catalog.State) → Step
  on_catalog call s = let (r, state) = call s.state in (r, record s { state = state })

  abbrev pub and_then : Outcome (Unit {0}) × IcebergSink → Step → Outcome (Unit {0}) × IcebergSink
  and_then (ok u, s) f = f s
  and_then (raised message, s) f = (raised message, s)

  -- A table that cannot be created is taken to be there.
  unfoldable pub ensure_table : Text → List ColumnSchema → IcebergSink → IcebergSink
  unfolding table_identifier
  ensure_table table schema s =
      if contains table s.known_tables
      then s
      else let (r, state) =
          catalog.create_table (table_identifier namespace table) (schema ++ cdc_meta) s.state in
        record { known_tables = table ∷ s.known_tables; state = state }

  abbrev pub add_new : Text → List ColumnSchema → Step
  add_new identifier [] s = (ok tt, s)
  add_new identifier (c ∷ cs) s = on_catalog (catalog.add_columns identifier (c ∷ cs)) s

  abbrev pub evolve_loaded : Text → List ColumnSchema → Outcome (List Text) → Step
  evolve_loaded identifier schema (raised message) s = (raised message, s)
  evolve_loaded identifier schema (ok existing) s =
      add_new identifier (keep (λ c. not (contains c.name existing)) (schema ++ cdc_meta)) s

  unfoldable pub evolve_schema : Text → List ColumnSchema → Step
  unfolding table_identifier
  evolve_schema table schema s =
      let identifier = table_identifier namespace table in
      let (existing, state) = catalog.load_table identifier s.state in
      evolve_loaded identifier schema existing (record s { state = state })

  abbrev pub enrich_all : (ℕ → ℕ) → ℕ → List ChangeEvent → List Row
  enrich_all now n [] = []
  enrich_all now n (ev ∷ evs) = enrich (now n) ev ∷ enrich_all now (suc n) evs

  -- `if rows` and `table.append`
  abbrev pub append_rows : Text → List Row → Step
  append_rows identifier [] s = (ok tt, s)
  append_rows identifier (r ∷ rows) s = on_catalog (catalog.append identifier (r ∷ rows)) s

  abbrev has_row : ChangeEvent → Bool
  has_row ev = elim (row ev) [ none ↦ false | some r ↦ true ]

  unfoldable pub write_append : Text → Text → List ChangeEvent → Step
  unfolding enrich row
  write_append table identifier events =
      append_rows identifier (enrich_all (clock table) 0 (keep has_row events))

  -- A row that cannot be deleted is passed over.
  abbrev pub delete_where : Text → List (Text × Value) → IcebergSink → IcebergSink
  delete_where identifier [] s = s
  delete_where identifier (c ∷ cs) s = (on_catalog (catalog.delete identifier (c ∷ cs)) s).1

  unfoldable pub delete_rows : Text → List Text → List Row → IcebergSink → IcebergSink
  unfolding conditions
  delete_rows identifier pks [] s = s
  delete_rows identifier pks (r ∷ rows) s =
      delete_rows identifier pks rows (delete_where identifier (conditions pks r) s)

  unfoldable pub write_merge : Text → Text → List Text → List ChangeEvent → Step
  unfolding write_append delete_rows rows_to_delete newest enrich
  write_merge table identifier [] events s = write_append table identifier events s
  write_merge table identifier (pk ∷ pks) events s =
      append_rows identifier
        (reverse
          (enrich_all (clock table) 0 (newest (pk ∷ pks) (reverse (keep is_upsert events)) [])))
        (delete_rows identifier (pk ∷ pks) (rows_to_delete events) s)

  unfoldable pub write_mode : Text → Text → List Text → List ChangeEvent → Step
  unfolding write_append write_merge
  write_mode table identifier pks events s = elim mode [
    | WriteMode.append ↦ write_append table identifier events s
    | WriteMode.merge ↦ write_merge table identifier pks events s
  ]

  -- `_dremio_refresh`
  abbrev pub refreshed : Text → IcebergSink → Outcome (Unit {0}) × IcebergSink
  refreshed table s =
      (ok tt, record s { state = catalog.refresh (dremio_table_path namespace table) s.state })

  -- `self._catalog.load_table(identifier)` before the write.
  abbrev pub with_table : Outcome (List Text) → Step → Step
  with_table (raised message) f s = (raised message, s)
  with_table (ok columns) f s = f s

  unfoldable pub write_table : Text → List ChangeEvent → Step
  unfolding ensure_table evolve_schema write_mode dremio_table_path primary_keys table_identifier
  write_table table [] s = (ok tt, s)
  write_table table (ev ∷ evs) s =
      let identifier = table_identifier namespace table in
      and_then (evolve_schema table ev.schema (ensure_table table ev.schema s)) (λ s1.
        let (loaded, state) = catalog.load_table identifier s1.state in
        and_then
          (with_table loaded (write_mode table identifier (primary_keys ev) (ev ∷ evs))
            (record s1 { state = state }))
          (refreshed table))

  unfoldable pub write_tables : Dict Text (List ChangeEvent) → Step
  unfolding write_table
  write_tables [] s = (ok tt, s)
  write_tables ((table, events) ∷ rest) s =
      and_then (write_table table events s) (write_tables rest)

  unfoldable pub write_batch : List ChangeEvent → Step
  unfolding write_tables group
  write_batch events s = write_tables (group events []) s
