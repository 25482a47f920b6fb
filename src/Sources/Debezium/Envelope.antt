-- ===== src/Sources/Debezium/Envelope.antt =====
-- The envelope of a Debezium event as its documentation lays it out, with the parts of it that
-- sources/debezium.py reads.
use dremio_cdc.Prelude.{
  ℕ, ◌*◌, ◌≤◌, ◌≡◌, ◌≢◌, Bool, false, ◌||◌, Option, none, some, List, [], ◌∷◌, ◌++◌, map, All, Text,
  text_eq, ◌==◌, if◌then◌else◌,
}
use dremio_cdc.Prelude.Int.{pos}
use dremio_cdc.Prelude.Dict.{lookup}
use dremio_cdc.Prelude.Chars.{codes, strip}
use dremio_cdc.Event.{Value, Items, Fields, nil, cons, end, field, Operation, ColumnSchema, Row}
use dremio_cdc.Sources.Debezium.{type_map, find}

-- A column of the table, by its Debezium type and the name of its logical type, if it has one.
pub record Column : Type 0 where
  pub name : Text
  pub raw_type : Text
  pub logical : Option Text
  pub optional : Bool

-- The places in the log are NULL where a connector has none.
pub record Envelope : Type 0 where
  pub op : Operation
  pub before : Option Row
  pub after : Option Row
  pub connector : Text
  pub database : Text
  pub namespace : Text
  pub table : Text
  pub ts_ms : ℕ
  pub columns : List Column
  pub scn : Value
  pub lsn : Value
  pub commit_lsn : Value
  pub gtid : Value

-- Names, a letter of the operation, rows and columns as JSON.
abbrev pub letter : Operation → Text
letter Operation.insert = codes "c"
letter Operation.update = codes "u"
letter Operation.delete = codes "d"
letter Operation.snapshot = codes "r"

abbrev pub encode_fields : Row → Fields
encode_fields [] = end
encode_fields ((k, v) ∷ row) = field k v (encode_fields row)

abbrev pub encode_row : Option Row → Value
encode_row none = Value.null
encode_row (some row) = Value.dict (encode_fields row)

abbrev pub encode_name : Option Text → Value
encode_name none = Value.null
encode_name (some t) = Value.text t

abbrev pub encode_column : Column → Value
encode_column c = Value.dict (
    field (codes "field") (Value.text c.name) (
      field (codes "type") (Value.text c.raw_type) (
        field (codes "name") (encode_name c.logical)
          (field (codes "optional") (Value.bool c.optional) end))))

abbrev pub encode_columns : List Column → Items
encode_columns [] = nil
encode_columns (c ∷ cs) = cons (encode_column c) (encode_columns cs)

abbrev part : Text → List Column → Value
part name columns = Value.dict (
    field (codes "field") (Value.text name)
      (field (codes "fields") (Value.list (encode_columns columns)) end))

abbrev pub encode_schema : Envelope → Value
encode_schema e = Value.dict (
    field (codes "fields")
      (Value.list (
        cons (part (codes "before") e.columns)
          (cons (part (codes "after") e.columns) (cons (part (codes "source") []) nil))))
      end)

abbrev pub encode_source : Envelope → Value
encode_source e = Value.dict (
    field (codes "connector") (Value.text e.connector) (
      field (codes "db") (Value.text e.database) (
        field (codes "schema") (Value.text e.namespace) (
          field (codes "table") (Value.text e.table) (
            field (codes "scn") e.scn (
              field (codes "lsn") e.lsn
                (field (codes "commit_lsn") e.commit_lsn (field (codes "gtid") e.gtid end))))))))

abbrev pub encode_payload : Envelope → Value
encode_payload e = Value.dict (
    field (codes "before") (encode_row e.before) (
      field (codes "after") (encode_row e.after) (
        field (codes "source") (encode_source e) (
          field (codes "op") (Value.text (letter e.op))
            (field (codes "ts_ms") (Value.int (pos e.ts_ms)) end)))))

abbrev pub encode : Envelope → Value
encode e =
    Value.dict
      (field (codes "schema") (encode_schema e) (field (codes "payload") (encode_payload e) end))

-- The event that an envelope stands for.
abbrev pub base_type : Text → Text
base_type t = elim (lookup t type_map) [ none ↦ codes "varchar" | some d ↦ d ]

abbrev pub type_of : Option Text → Text → Text
type_of none raw = base_type raw
type_of (some l) raw = elim (lookup l type_map) [ none ↦ base_type raw | some d ↦ d ]

-- Nothing in an envelope says which columns are the key.
abbrev pub column_of : Column → ColumnSchema
column_of c = record {
  name = c.name;
  data_type = type_of c.logical c.raw_type;
  nullable = c.optional;
  primary_key = false;
}

abbrev pub columns_of : List Column → List ColumnSchema
columns_of = map column_of

abbrev pub namespace_of : Envelope → Text
namespace_of e =
    if e.connector == codes "oracle" || e.connector == codes "db2"
    then e.namespace
    else elim e.database [ [] ↦ e.namespace | c ∷ d ↦ c ∷ d ]

abbrev pub full_name : Text → Text → Text
full_name [] table = table
full_name (c ∷ n) table = (c ∷ n) ++ (b'.' ∷ table)

-- A value is not one of the dicts in which Oracle wraps numbers; a logical type has no white space
-- around it, and a column has a name.
abbrev pub Plain : Value → Type 0
Plain (Value.dict fs) = find (codes "value") fs ≡ none
Plain v = Unit {0}

abbrev pub PlainRow : Option Row → Type 0
PlainRow none = Unit {0}
PlainRow (some row) = All (λ (p : Text × Value). Plain p.1) row

abbrev pub Trimmed : Option Text → Type 0
Trimmed none = Unit {0}
Trimmed (some l) = strip l ≡ l

pub record EnvelopeFits (e : Envelope) : Type 0 where
  pub plain_before : PlainRow e.before
  pub plain_after : PlainRow e.after
  pub names : All (λ c. (c.name ≢ []) × Trimmed c.logical) e.columns
  pub some_columns : e.columns ≢ []
  pub in_time : e.ts_ms * 1000 ≤ 253402300799999999
  pub has_table : e.table ≢ []
