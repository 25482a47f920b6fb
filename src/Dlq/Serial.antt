-- ===== src/Dlq/Serial.antt =====
-- core/dlq.py: how an event is stored, and what comes back.
use dremio_cdc.Prelude.{
  ℕ, ◌+◌, ◌-◌, ◌/◌, ◌%◌, Option, none, some, List, [], ◌∷◌, Text, text_eq, ◌==◌, ltb, if◌then◌else◌,
}
use dremio_cdc.Prelude.Chars.{codes}
use dremio_cdc.Event.{
  Value, Items, Fields, nil, cons, end, field, Row, Operation, ColumnSchema, ChangeEvent, Printing,
  str, is_none,
}
use dremio_cdc.Outcome.{Outcome, ok, raised}

abbrev hex_digit : ℕ → ℕ
hex_digit n = if ltb n 10 then b'0' + n else b'a' + (n - 10)

-- `bytes.hex()`
abbrev pub hex : List ℕ → Text
hex [] = []
hex (b ∷ bs) = hex_digit (b / 16) ∷ hex_digit (b % 16) ∷ hex bs

-- `Operation.value` and `Operation(...)`, which raises on another text.
unfoldable pub op_value : Operation → Text
op_value Operation.insert = codes "insert"
op_value Operation.update = codes "update"
op_value Operation.delete = codes "delete"
op_value Operation.snapshot = codes "snapshot"

unfoldable pub parse_operation : Text → Outcome Operation
parse_operation t =
    if t == codes "insert"
    then ok Operation.insert
    else if t == codes "update"
    then ok Operation.update
    else if t == codes "delete"
    then ok Operation.delete
    else if t == codes "snapshot"
    then ok Operation.snapshot
    else raised t

-- The dict that `_serialize_event` makes of an event.
pub record Stored : Type 0 where
  pub op : Text
  pub source_name : Text
  pub source_table : Text
  pub before : Option Row
  pub after : Option Row
  pub schema : List ColumnSchema
  pub timestamp : Option Text
  pub offset : Option Text
  pub tx_id : Option Text

module _ (py : Printing) where
  -- `_coerce`: no database type is left that JSON does not have.
  unfoldable mutual
    pub coerce : Value → Value
    coerce Value.null = Value.null
    coerce (Value.bool b) = Value.bool b
    coerce (Value.int n) = Value.int n
    coerce (Value.float t) = Value.float t
    coerce (Value.decimal t) = Value.float (py.float_of_decimal t)
    coerce (Value.text t) = Value.text t
    coerce (Value.bytes b) = Value.text (hex b)
    coerce (Value.datetime t) = Value.text (py.isoformat t)
    coerce (Value.date d) = Value.text (py.date_isoformat d)
    coerce (Value.list xs) = Value.list (coerce_items xs)
    coerce (Value.dict fs) = Value.dict (coerce_fields fs)

    pub coerce_items : Items → Items
    coerce_items nil = nil
    coerce_items (cons x xs) = cons (coerce x) (coerce_items xs)

    pub coerce_fields : Fields → Fields
    coerce_fields end = end
    coerce_fields (field k v fs) = field k (coerce v) (coerce_fields fs)

  unfoldable pub coerce_row : Row → Row
  unfolding coerce
  coerce_row [] = []
  coerce_row ((k, v) ∷ row) = (k, coerce v) ∷ coerce_row row

  -- `_coerce(ev.before)`
  abbrev pub coerce_side : Option Row → Option Row
  coerce_side none = none
  coerce_side (some row) = some (coerce_row row)

  abbrev pub iso : Option ℕ → Option Text
  iso none = none
  iso (some t) = some (py.isoformat t)

  -- `str(ev.offset) if ev.offset is not None else None`
  abbrev pub offset_text : Value → Option Text
  offset_text offset = if is_none offset then none else some (str py offset)

  unfoldable pub serialize_event : ChangeEvent → Stored
  serialize_event ev = record {
    op = op_value ev.op;
    source_name = ev.source_name;
    source_table = ev.source_table;
    before = coerce_side ev.before;
    after = coerce_side ev.after;
    schema = ev.schema;
    timestamp = iso ev.timestamp;
    offset = offset_text ev.offset;
    tx_id = ev.tx_id;
  }

  -- `now` stands in for a time stamp that is missing or empty.
  module _ (now : ℕ) where
    abbrev pub read_timestamp : Option Text → ℕ
    read_timestamp none = now
    read_timestamp (some []) = now
    read_timestamp (some (c ∷ t)) = py.fromisoformat (c ∷ t)

    abbrev pub read_offset : Option Text → Value
    read_offset none = Value.null
    read_offset (some t) = Value.text t

    abbrev pub with_operation : Stored → Operation → ChangeEvent
    with_operation d op = record {
      op = op;
      source_name = d.source_name;
      source_table = d.source_table;
      before = d.before;
      after = d.after;
      schema = d.schema;
      timestamp = some (read_timestamp d.timestamp);
      offset = read_offset d.offset;
      tx_id = d.tx_id;
    }

    unfoldable pub deserialize_event : Stored → Outcome ChangeEvent
    deserialize_event d = elim (parse_operation d.op) [
      | ok op ↦ ok (with_operation d op)
      | raised message ↦ raised message
    ]

    abbrev pub cons_event : ChangeEvent → Outcome (List ChangeEvent) → Outcome (List ChangeEvent)
    cons_event ev (ok evs) = ok (ev ∷ evs)
    cons_event ev (raised message) = raised message

    unfoldable pub deserialize_all : List Stored → Outcome (List ChangeEvent)
    deserialize_all [] = ok []
    deserialize_all (d ∷ ds) = elim (deserialize_event d) [
      | ok ev ↦ cons_event ev (deserialize_all ds)
      | raised message ↦ raised message
    ]
