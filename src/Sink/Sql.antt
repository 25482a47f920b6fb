-- ===== src/Sink/Sql.antt =====
-- The SQL text that core/dremio_sink.py makes.
use dremio_cdc.Prelude.{
  ℕ, ◌+◌, ◌/◌, ◌%◌, true, false, not, Option, none, some, List, [], ◌∷◌, ◌++◌, map, keep, Text,
  text_eq, contains,
}
use dremio_cdc.Prelude.Chars.{codes, lower, split, join, replace}
use dremio_cdc.Prelude.Dict.{Dict, lookup, insert}
use dremio_cdc.Event.{Value, Row, ColumnSchema, ChangeEvent, Printing, str}
use dremio_cdc.Dlq.Serial.{hex, op_value}

-- `_CDC_META_COLS`
abbrev pub meta_column : Text → Text → ColumnSchema
meta_column name type = record {
  name = name;
  data_type = type;
  nullable = true;
  primary_key = false;
}

abbrev pub meta_columns : List ColumnSchema
meta_columns =
    meta_column (codes "_cdc_op") (codes "VARCHAR")
    ∷ meta_column (codes "_cdc_source") (codes "VARCHAR")
    ∷ meta_column (codes "_cdc_ts") (codes "TIMESTAMP")
    ∷ []

-- `_TYPE_MAP`
abbrev pub type_map : Dict Text Text
type_map =
    (codes "varchar", codes "VARCHAR")
    ∷ (codes "text", codes "VARCHAR")
    ∷ (codes "char", codes "VARCHAR")
    ∷ (codes "int", codes "INT")
    ∷ (codes "integer", codes "INT")
    ∷ (codes "bigint", codes "BIGINT")
    ∷ (codes "smallint", codes "INT")
    ∷ (codes "serial", codes "INT")
    ∷ (codes "bigserial", codes "BIGINT")
    ∷ (codes "double", codes "DOUBLE")
    ∷ (codes "float", codes "FLOAT")
    ∷ (codes "numeric", codes "DOUBLE")
    ∷ (codes "decimal", codes "DOUBLE")
    ∷ (codes "boolean", codes "BOOLEAN")
    ∷ (codes "bool", codes "BOOLEAN")
    ∷ (codes "timestamp", codes "TIMESTAMP")
    ∷ (codes "date", codes "DATE")
    ∷ (codes "time", codes "TIME")
    ∷ (codes "json", codes "VARCHAR")
    ∷ (codes "jsonb", codes "VARCHAR")
    ∷ (codes "uuid", codes "VARCHAR")
    ∷ (codes "bytea", codes "VARBINARY")
    ∷ []

abbrev pub or_varchar : Option Text → Text
or_varchar none = codes "VARCHAR"
or_varchar (some t) = t

abbrev pub first_part : List Text → Text
first_part [] = []
first_part (p ∷ ps) = p

unfoldable pub dremio_type : Text → Text
unfolding split
dremio_type col_type = or_varchar (lookup (first_part (split b'(' (lower col_type))) type_map)

-- `_quote`: a double quote in the name is not escaped.
abbrev pub quote : Text → Text
quote name = b'"' ∷ (name ++ codes "\"")

unfoldable pub quote_table : Text → Text
unfolding split
quote_table path = join (codes ".") (map quote (split b'.' path))

unfoldable pub target_path : Text → Text → Text
target_path namespace source_table = namespace ++ (b'.' ∷ replace b'.' (codes "_") source_table)

abbrev pub column_def : ColumnSchema → Text
column_def c = quote c.name ++ (b' ' ∷ dremio_type c.data_type)

unfoldable pub create_sql : Text → List ColumnSchema → Text
unfolding quote_table dremio_type
create_sql path cols =
    codes "CREATE TABLE IF NOT EXISTS "
    ++ (quote_table path
        ++ (codes " (\n  " ++ (join (codes ",\n  ") (map column_def cols) ++ codes "\n)")))

unfoldable pub alter_sql : Text → ColumnSchema → Text
unfolding quote_table dremio_type
alter_sql path col =
    codes "ALTER TABLE "
    ++ (quote_table path ++ (codes " ADD COLUMNS (" ++ (column_def col ++ codes ")")))

-- `f"{ms:03d}"` of a number below a thousand.
abbrev pub three_digits : ℕ → Text
three_digits n = (b'0' + n / 100 % 10) ∷ (b'0' + n / 10 % 10) ∷ (b'0' + n % 10) ∷ []

abbrev pub apostrophe : ℕ
apostrophe = 39

abbrev pub literal : Text → Text
literal s = apostrophe ∷ (replace apostrophe (codes "''") s ++ codes "'")

-- `strftime` is `val.strftime('%Y-%m-%d %H:%M:%S')`.
module _ (py : Printing) (strftime : ℕ → Text) where
  unfoldable pub escape : Value → Text
  unfolding str
  escape Value.null = codes "NULL"
  escape (Value.bool true) = codes "TRUE"
  escape (Value.bool false) = codes "FALSE"
  escape (Value.decimal t) = py.float_of_decimal t
  escape (Value.int n) = str py (Value.int n)
  escape (Value.float t) = t
  escape (Value.datetime t) =
      codes "CAST('"
      ++ (strftime t ++ (b'.' ∷ (three_digits (t % 1000000 / 1000) ++ codes "' AS TIMESTAMP)")))
  escape (Value.date d) = codes "CAST('" ++ (py.date_isoformat d ++ codes "' AS DATE)")
  escape (Value.bytes b) = apostrophe ∷ (hex b ++ codes "'")
  escape v = literal (str py v)

  abbrev pub names : List ColumnSchema → List Text
  names schema = map (λ c. c.name) (schema ++ meta_columns)

  abbrev pub or_empty : Option Row → Row
  or_empty none = []
  or_empty (some row) = row

  -- `row.get(c)`
  abbrev pub get : Text → Row → Value
  get c row = elim (lookup c row) [ none ↦ Value.null | some v ↦ v ]

  abbrev pub instant : Option ℕ → Value
  instant none = Value.null
  instant (some t) = Value.datetime t

  -- `dict(ev.after or {})` with the columns of the event's own data.
  unfoldable pub target_row : ChangeEvent → Row
  target_row ev = insert (codes "_cdc_ts") (instant ev.timestamp) (
      insert (codes "_cdc_source") (Value.text ev.source_name)
        (insert (codes "_cdc_op") (Value.text (op_value ev.op)) (or_empty ev.after)))

  abbrev pub row_values : List Text → ChangeEvent → Text
  row_values cols ev = join (codes ", ") (map (λ c. escape (get c (target_row ev))) cols)

  unfoldable pub merge_sql : Text → List ColumnSchema → List Text → List ChangeEvent → Text
  unfolding quote_table escape target_row
  merge_sql path schema pks events =
      let cols = names schema in
      let col_list = join (codes ", ") (map quote cols) in
      codes "MERGE INTO "
      ++ (quote_table path
          ++ (codes " AS t\nUSING (VALUES\n  "
              ++ (join (codes ",\n  ") (map (λ ev. b'(' ∷ (row_values cols ev ++ codes ")")) events)
                  ++ (codes "\n) AS s("
                      ++ (col_list
                          ++ (codes ")\nON "
                              ++ (join (codes " AND ")
                                    (map (λ pk. codes "t." ++ (pk ++ (codes " = s." ++ pk))) pks)
                                  ++ (codes "\nWHEN MATCHED THEN UPDATE SET "
                                      ++ (join (codes ", ") (
                                            map (λ c. quote c ++ (codes " = s." ++ quote c))
                                              (keep (λ c. not (contains c pks)) cols))
                                          ++ (codes "\nWHEN NOT MATCHED THEN INSERT ("
                                              ++ (col_list
                                                  ++ (codes ") VALUES ("
                                                      ++ (join (codes ", ")
                                                            (map (λ c. codes "s." ++ quote c) cols)
                                                          ++ codes ")")))))))))))))

  unfoldable pub insert_sql : Text → List ColumnSchema → ChangeEvent → Text
  unfolding quote_table escape target_row
  insert_sql path schema ev =
      let cols = names schema in
      codes "INSERT INTO "
      ++ (quote_table path
          ++ (codes " ("
              ++ (join (codes ", ") (map quote cols)
                  ++ (codes ") VALUES (" ++ (row_values cols ev ++ codes ")")))))

  unfoldable pub delete_sql : Text → List Text → ChangeEvent → Text
  unfolding quote_table escape
  delete_sql path pks ev =
      codes "DELETE FROM "
      ++ (quote_table path
          ++ (codes " WHERE "
              ++ join (codes " AND ") (
                  map (λ pk. quote pk ++ (codes " = " ++ escape (get pk (or_empty ev.before))))
                    pks)))
