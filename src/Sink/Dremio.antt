-- ===== src/Sink/Dremio.antt =====
-- The tables and the writes of core/dremio_sink.py.
use dremio_cdc.Prelude.{
  ℕ, Bool, true, false, not, ◌&&◌, Option, none, some, List, [], ◌∷◌, ◌++◌, map, keep, Text,
  text_eq, contains, if◌then◌else◌,
}
use dremio_cdc.Prelude.Dict.{Dict, lookup, insert, has_key, values}
use dremio_cdc.Event.{
  Value, Row, ColumnSchema, ChangeEvent, Printing, primary_keys, is_upsert, values_eq,
}
use dremio_cdc.Outcome.{Outcome, ok, raised}
use dremio_cdc.Sink.Server.{Server, execute}
use dremio_cdc.Sink.Sql.{
  meta_columns, target_path, create_sql, alter_sql, merge_sql, insert_sql, delete_sql,
}

abbrev pub key_at : List Text → Row → List Value
key_at pks row = map (λ pk. elim (lookup pk row) [ none ↦ Value.null | some v ↦ v ]) pks

abbrev pub side : Option Row → Row
side none = []
side (some row) = row

-- `seen[key] = ev` over the events: the last event of each key, at the place of the first.
unfoldable pub dedupe_into :
    List Text → List ChangeEvent → Dict (List Value) ChangeEvent → Dict (List Value) ChangeEvent
dedupe_into pks [] seen = seen
dedupe_into pks (ev ∷ evs) seen = dedupe_into pks evs (insert (key_at pks (side ev.after)) ev seen)

unfoldable pub dedupe : List Text → List ChangeEvent → List ChangeEvent
unfolding dedupe_into
dedupe pks evs = values (dedupe_into pks evs [])

-- `by_table.setdefault(ev.source_table, []).append(ev)`
abbrev pub add_to : Option (List ChangeEvent) → ChangeEvent → List ChangeEvent
add_to none ev = ev ∷ []
add_to (some evs) ev = evs ++ (ev ∷ [])

unfoldable pub group :
    List ChangeEvent → Dict Text (List ChangeEvent) → Dict Text (List ChangeEvent)
group [] by_table = by_table
group (ev ∷ evs) by_table =
    group evs (insert ev.source_table (add_to (lookup ev.source_table by_table) ev) by_table)

abbrev pub is_nonempty {ℓ} : {A : Type ℓ} → List A → Bool
is_nonempty [] = false
is_nonempty (x ∷ xs) = true

-- What a statement is about, from the path of its table on. MERGE takes the schema, the key and the
-- events; INSERT the schema and an event; DELETE the key and an event.
pub data Statement : Type 0 where
  create_table : Text → List ColumnSchema → Statement
  add_column : Text → ColumnSchema → Statement
  merge_rows : Text → List ColumnSchema → List Text → List ChangeEvent → Statement
  insert_row : Text → List ColumnSchema → ChangeEvent → Statement
  delete_row : Text → List Text → ChangeEvent → Statement

-- Its text.
module _ (py : Printing) (strftime : ℕ → Text) where
  unfoldable pub render : Statement → Text
  unfolding create_sql alter_sql merge_sql insert_sql delete_sql
  render (Statement.create_table path cols) = create_sql path cols
  render (Statement.add_column path col) = alter_sql path col
  render (Statement.merge_rows path schema pks events) =
      merge_sql py strftime path schema pks events
  render (Statement.insert_row path schema ev) = insert_sql py strftime path schema ev
  render (Statement.delete_row path pks ev) = delete_sql py strftime path pks ev

-- `run` sends a statement to the server, whose state is `State`.
module _ (State : Type 0) (run : Statement → State → Outcome (Unit {0}) × State)
    (namespace : Text) where
  -- `_known_schemas`, and the server.
  pub record Sink : Type 0 where
    pub known : Dict Text (List Text)
    pub state : State

  abbrev pub and_then :
      Outcome (Unit {0}) × Sink → (Sink → Outcome (Unit {0}) × Sink) → Outcome (Unit {0}) × Sink
  and_then (ok u, s) f = f s
  and_then (raised message, s) f = (raised message, s)

  abbrev pub sql : Statement → Sink → Outcome (Unit {0}) × Sink
  sql statement s = let (r, state) = run statement s.state in (r, record s { state = state })

  -- `if source_table not in self._known_schemas`
  abbrev pub seed : Text → List ColumnSchema → Sink → Sink
  seed table cols s =
      if has_key table s.known
      then s
      else record s { known = insert table (map (λ c. c.name) cols) s.known }

  unfoldable pub ensure_table : Text → List ColumnSchema → Sink → Outcome (Unit {0}) × Sink
  unfolding target_path
  ensure_table table schema s =
      let cols = schema ++ meta_columns in
      and_then (sql (Statement.create_table (target_path namespace table) cols) s)
        (λ s'. (ok tt, seed table cols s'))

  -- A column that could not be added is left for the next time.
  abbrev pub note : Text → List Text → Outcome (Unit {0}) × Sink → List Text × Sink
  note name known (ok u, s) = (known ++ (name ∷ []), s)
  note name known (raised message, s) = (known, s)

  unfoldable pub add_columns : Text → List ColumnSchema → List Text → Sink → List Text × Sink
  unfolding target_path
  add_columns table [] known s = (known, s)
  add_columns table (c ∷ cs) known s =
      let added =
        note c.name known (sql (Statement.add_column (target_path namespace table) c) s) in
      elim (contains c.name known) [
        | true ↦ add_columns table cs known s
        | false ↦ add_columns table cs added.0 added.1
      ]

  abbrev pub known_columns : Text → Sink → List Text
  known_columns table s = elim (lookup table s.known) [ none ↦ [] | some cols ↦ cols ]

  unfoldable pub evolve_schema : Text → List ColumnSchema → Sink → Outcome (Unit {0}) × Sink
  unfolding add_columns
  evolve_schema table schema s =
      let (known, s') = add_columns table schema (known_columns table s) s in
      (ok tt, record s' { known = insert table known s'.known })

  unfoldable pub merge :
      Text → List ColumnSchema → List Text → List ChangeEvent → Sink → Outcome (Unit {0}) × Sink
  unfolding target_path
  merge table schema pks events =
      sql (Statement.merge_rows (target_path namespace table) schema pks events)

  unfoldable pub insert_all :
      Text → List ColumnSchema → List ChangeEvent → Sink → Outcome (Unit {0}) × Sink
  unfolding target_path
  insert_all table schema [] s = (ok tt, s)
  insert_all table schema (ev ∷ evs) s =
      and_then (sql (Statement.insert_row (target_path namespace table) schema ev) s)
        (insert_all table schema evs)

  unfoldable pub write_upserts :
      Text → List ColumnSchema → List Text → List ChangeEvent → Sink → Outcome (Unit {0}) × Sink
  unfolding merge dedupe insert_all
  write_upserts table schema pks [] s = (ok tt, s)
  write_upserts table schema [] (ev ∷ evs) s = insert_all table schema (ev ∷ evs) s
  write_upserts table schema (pk ∷ pks) (ev ∷ evs) s =
      merge table schema (pk ∷ pks) (dedupe (pk ∷ pks) (ev ∷ evs)) s

  -- `if pks and ev.before`
  unfoldable pub write_deletes :
      Text → List Text → List ChangeEvent → Sink → Outcome (Unit {0}) × Sink
  unfolding target_path
  write_deletes table pks [] s = (ok tt, s)
  write_deletes table pks (ev ∷ evs) s =
      if is_nonempty pks && is_nonempty (side ev.before)
      then and_then (sql (Statement.delete_row (target_path namespace table) pks ev) s)
          (write_deletes table pks evs)
      else write_deletes table pks evs s

  unfoldable pub write_table : Text → List ChangeEvent → Sink → Outcome (Unit {0}) × Sink
  unfolding ensure_table evolve_schema write_upserts write_deletes primary_keys
  write_table table [] s = (ok tt, s)
  write_table table (ev ∷ evs) s =
      let pks = primary_keys ev in
      and_then (ensure_table table ev.schema s) (λ s1.
        and_then (evolve_schema table ev.schema s1) (λ s2.
          and_then (write_upserts table ev.schema pks (keep is_upsert (ev ∷ evs)) s2)
            (write_deletes table pks (keep (λ e. not (is_upsert e)) (ev ∷ evs)))))

  unfoldable pub write_tables : Dict Text (List ChangeEvent) → Sink → Outcome (Unit {0}) × Sink
  unfolding write_table
  write_tables [] s = (ok tt, s)
  write_tables ((table, evs) ∷ rest) s = and_then (write_table table evs s) (write_tables rest)

  unfoldable pub write_batch : List ChangeEvent → Sink → Outcome (Unit {0}) × Sink
  unfolding write_tables group
  write_batch events s = write_tables (group events []) s

-- The statements as Dremio is sent them.
module _ (server : Server) (rounds : ℕ) (py : Printing) (strftime : ℕ → Text) where
  abbrev pub run_sql : Statement → server.State → Outcome (Unit {0}) × server.State
  run_sql statement s = execute server rounds (render py strftime statement) s

  abbrev pub write_batch_sql :
      (namespace : Text)
      → List ChangeEvent
      → Sink server.State run_sql namespace
      → Outcome (Unit {0}) × Sink server.State run_sql namespace
  write_batch_sql namespace = write_batch server.State run_sql namespace
