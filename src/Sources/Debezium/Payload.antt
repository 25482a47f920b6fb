-- ===== src/Sources/Debezium/Payload.antt =====
-- sources/debezium.py, `_convert`: the payload of an envelope becomes a change event.
use dremio_cdc.Prelude.{
  ℕ, ◌*◌, Bool, true, false, not, ◌||◌, Option, none, some, List, [], ◌∷◌, ◌++◌, map, Text, text_eq,
  ◌==◌, leb, if◌then◌else◌,
}
use dremio_cdc.Prelude.Int.{pos}
use dremio_cdc.Prelude.Dict.{lookup}
use dremio_cdc.Prelude.Chars.{codes, upper}
use dremio_cdc.Event.{
  Value, end, field, Operation, ColumnSchema, ChangeEvent, Row, Printing, str, truthy,
}
use dremio_cdc.Outcome.{Outcome, ok, raised, ◌>>=◌}
use dremio_cdc.Sources.Debezium.{op_map, get, is_text, or_value}
use dremio_cdc.Sources.Debezium.Schema.{coerce_oracle_row, parse_schema}

module _ (py : Printing) where
  -- What `fromtimestamp` makes of milliseconds that are no natural number; it may raise.
  pub record Millis : Type 0 where
    pub other : Value → Outcome ℕ

  unfoldable pub timestamp_of : Millis → Value → Outcome ℕ
  timestamp_of m (Value.int (pos n)) =
      if leb (n * 1000) 253402300799999999
      then ok (n * 1000)
      else raised (codes "year is out of range")
  timestamp_of m v = m.other v

  -- A list or a dict has been refused by `is_ddl_event`.
  abbrev pub operation_of : Value → Operation
  operation_of (Value.text t) = elim (lookup t op_map) [ none ↦ Operation.insert | some op ↦ op ]
  operation_of v = Operation.insert

  -- `table.upper()`, which only a text has.
  unfoldable pub upper_text : Value → Outcome Text
  upper_text (Value.text t) = ok (upper t)
  upper_text v = raised (codes "no attribute 'upper'")

  -- `table_filter and table.upper() != table_filter`
  abbrev pub filtered : Option Text → Value → Outcome Bool
  filtered none table = ok false
  filtered (some []) table = ok false
  filtered (some (c ∷ t)) table = upper_text table >>= λ u. ok (not (u == c ∷ t))

  unfoldable pub qualified : Value → Value → Text
  qualified db table = if truthy db then str py db ++ (b'.' ∷ str py table) else str py table

  abbrev keys_of : Row → List ColumnSchema
  keys_of = map (λ p. record {
    name = p.0;
    data_type = codes "varchar";
    nullable = true;
    primary_key = false;
  })

  -- `after or before`, for the columns of an event that comes without a schema.
  abbrev pub inferred : List ColumnSchema → Option Row → Option Row → List ColumnSchema
  inferred (c ∷ columns) before after = c ∷ columns
  inferred [] before (some (p ∷ row)) = keys_of (p ∷ row)
  inferred [] (some row) after = keys_of row
  inferred [] none after = []

  abbrev pub position : Value → Text → Value → Value → Value → Value
  position ts table scn lsn gtid = Value.dict (
      field (codes "ts_ms") ts (
        field (codes "table") (Value.text table)
          (field (codes "scn") scn (field (codes "lsn") lsn (field (codes "gtid") gtid end)))))

  -- The namespace: by the connector, the schema or the database.
  abbrev pub is_oracle_like : Value → Bool
  is_oracle_like v = is_text (codes "oracle") v || is_text (codes "db2") v

  module _ (millis : Millis) (source_name : Text) where
    unfoldable pub build : Text → Value → Value → Value → Outcome ChangeEvent
    unfolding get
    build full_table schema_meta value source = do
      op ← get (codes "op") (Value.text (codes "c")) value
      b ← get (codes "before") Value.null value
      before ← coerce_oracle_row py b
      a ← get (codes "after") Value.null value
      after ← coerce_oracle_row py a
      ts ← get (codes "ts_ms") (Value.int (pos 0)) value
      columns ← parse_schema py schema_meta
      timestamp ← timestamp_of millis ts
      scn ← get (codes "scn") Value.null source
      lsn ← get (codes "lsn") Value.null source
      commit_lsn ← get (codes "commit_lsn") Value.null source
      gtid ← get (codes "gtid") Value.null source
      ok record {
        op = operation_of op;
        source_name = source_name;
        source_table = full_table;
        before = before;
        after = after;
        schema = inferred columns before after;
        timestamp = some timestamp;
        offset = position ts full_table scn (or_value lsn commit_lsn) gtid;
        tx_id = none;
      }

    abbrev pub unless : Bool → Outcome ChangeEvent → Outcome (List ChangeEvent)
    unless true event = ok []
    unless false event = event >>= λ ev. ok (ev ∷ [])

    unfoldable pub convert : Value → Option Text → Outcome (List ChangeEvent)
    unfolding get upper_text
    convert payload table_filter = do
      schema_meta ← get (codes "schema") (Value.dict end) payload
      value ← get (codes "payload") (Value.dict end) payload
      source ← get (codes "source") (Value.dict end) value
      t ← get (codes "table") Value.null source
      c ← get (codes "collection") Value.null source
      let table = or_value t (or_value c (Value.text (codes "unknown")))
      connector ← get (codes "connector") (Value.text []) source
      schema ← get (codes "schema") Value.null source
      database ← get (codes "db") Value.null source
      let db =
          or_value (if is_oracle_like connector then schema else or_value database schema)
            (Value.text [])
      skip ← filtered table_filter table
      unless skip (build (qualified db table) schema_meta value source)
