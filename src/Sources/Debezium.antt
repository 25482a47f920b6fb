-- ===== src/Sources/Debezium.antt =====
-- sources/debezium.py: the envelope of a Debezium event becomes a change event.
pub mod Schema
pub mod Payload
pub mod Queue
pub mod Envelope
pub mod Columns
pub mod Convert
pub mod Shared
mod Tests
use dremio_cdc.Prelude.{
  ℕ, ◌*◌, Bool, true, false, not, ◌&&◌, ◌||◌, Option, none, some, List, [], ◌∷◌, ◌++◌, map, Text,
  text_eq, ◌==◌, contains, leb, if◌then◌else◌,
}
use dremio_cdc.Prelude.Int.{pos}
use dremio_cdc.Prelude.Dict.{Dict, lookup}
use dremio_cdc.Prelude.Chars.{codes, upper, strip, strip_prefix}
use dremio_cdc.Event.{
  Value, Items, Fields, nil, cons, end, field, Operation, ColumnSchema, ChangeEvent, Row, Printing,
  str, truthy,
}
use dremio_cdc.Outcome.{Outcome, ok, raised, ◌>>=◌}

-- `_OP_MAP`
abbrev pub op_map : Dict Text Operation
op_map =
    (codes "c", Operation.insert)
    ∷ (codes "u", Operation.update)
    ∷ (codes "d", Operation.delete)
    ∷ (codes "r", Operation.snapshot)
    ∷ []

-- `_TYPE_MAP`
abbrev pub type_map : Dict Text Text
type_map =
    (codes "string", codes "varchar")
    ∷ (codes "int8", codes "smallint")
    ∷ (codes "int16", codes "smallint")
    ∷ (codes "int32", codes "integer")
    ∷ (codes "int64", codes "bigint")
    ∷ (codes "float32", codes "float")
    ∷ (codes "float64", codes "double")
    ∷ (codes "boolean", codes "boolean")
    ∷ (codes "bytes", codes "bytea")
    ∷ (codes "io.debezium.time.Date", codes "date")
    ∷ (codes "io.debezium.time.Time", codes "time")
    ∷ (codes "io.debezium.time.MicroTime", codes "time")
    ∷ (codes "io.debezium.time.Timestamp", codes "timestamp")
    ∷ (codes "io.debezium.time.MicroTimestamp", codes "timestamp")
    ∷ (codes "io.debezium.time.ZonedTimestamp", codes "timestamp")
    ∷ (codes "io.debezium.data.VariableScaleDecimal", codes "numeric")
    ∷ (codes "org.apache.kafka.connect.data.Decimal", codes "numeric")
    ∷ []

abbrev pub find : Text → Fields → Option Value
find k end = none
find k (field j v fs) = if j == k then some v else find k fs

abbrev or_default : Value → Option Value → Value
or_default d none = d
or_default d (some v) = v

-- `v.get(k, default)`; only a dict has it.
unfoldable pub get : Text → Value → Value → Outcome Value
get k default (Value.dict fs) = ok (or_default default (find k fs))
get k default v = raised (codes "no attribute 'get'")

-- `t in s` for two texts.
abbrev is_infix : Text → Text → Bool
is_infix t [] = t == []
is_infix t (c ∷ s) = elim (strip_prefix t (c ∷ s)) [ none ↦ is_infix t s | some r ↦ true ]

abbrev pub is_text : Text → Value → Bool
is_text t (Value.text s) = s == t
is_text t v = false

abbrev has_text : Text → Items → Bool
has_text t nil = false
has_text t (cons v vs) = is_text t v || has_text t vs

abbrev there : Option Value → Bool
there none = false
there (some v) = true

-- `k in v`
unfoldable pub is_in : Text → Value → Outcome Bool
is_in k (Value.dict fs) = ok (there (find k fs))
is_in k (Value.text s) = ok (is_infix k s)
is_in k (Value.list vs) = ok (has_text k vs)
is_in k v = raised (codes "argument is not iterable")

-- `v in {"$", "t"}`; a list or a dict is not hashable.
unfoldable pub is_skipped : Value → Outcome Bool
is_skipped (Value.text t) = ok (t == codes "$" || t == codes "t")
is_skipped (Value.list vs) = raised (codes "unhashable")
is_skipped (Value.dict fs) = raised (codes "unhashable")
is_skipped v = ok false

abbrev or_else : Bool → Outcome Bool → Outcome Bool
or_else true later = ok true
or_else false later = later

-- `_is_ddl_event`, for the value of the key `payload`.
unfoldable pub is_ddl_value : Value → Outcome Bool
unfolding get is_in is_skipped
is_ddl_value value = do
  database ← is_in (codes "databaseName") value
  operation ← is_in (codes "op") value
  or_else (database && not operation) do
    source ← get (codes "source") (Value.dict end) value
    connector ← get (codes "connector") Value.null source
    or_else (is_text (codes "heartbeat") connector)
        do op ← get (codes "op") (Value.text []) value; is_skipped op

unfoldable pub is_ddl_event : Value → Outcome Bool
unfolding get is_ddl_value
is_ddl_event payload = get (codes "payload") (Value.dict end) payload >>= is_ddl_value

-- `v.get(k)` of a value, or of another when that is falsy.
abbrev pub or_value : Value → Value → Value
or_value a b = elim (truthy a) [ true ↦ a | false ↦ b ]
