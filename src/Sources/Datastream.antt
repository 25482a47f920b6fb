-- ===== src/Sources/Datastream.antt =====
-- sources/datastream.py: change files in a bucket.
pub mod Offset
pub mod Names
pub mod Stream
pub mod Resume
mod Tests
use dremio_cdc.Prelude.{
  ℕ, zero, suc, ◌+◌, ◌*◌, Bool, true, false, not, ◌||◌, ◌&&◌, Option, none, some, List, [], ◌∷◌,
  ◌++◌, map, Text, text_eq, ◌==◌, ltb, leb, keep, if◌then◌else◌,
}
use dremio_cdc.Prelude.Dict.{lookup}
use dremio_cdc.Prelude.Chars.{codes, upper, strip_prefix}
use dremio_cdc.Prelude.Int.{pos, negsuc}
use dremio_cdc.Event.{
  Value, Items, nil, cons, Operation, ColumnSchema, ChangeEvent, Row, Printing, str, truthy,
}
use dremio_cdc.Offsets.{Json}
use dremio_cdc.Sources.Record.{infer_schema, normalise, get, or_value}

abbrev is_delete : Operation → Bool
is_delete Operation.delete = true
is_delete op = false

-- `not k.startswith(_META)`
abbrev is_column : Text × Value → Bool
is_column (k, v) = elim (strip_prefix (codes "_metadata_") k) [ none ↦ true | some r ↦ false ]

unfoldable pub strip_meta : Row → Row
strip_meta = keep is_column

-- What `fromtimestamp` makes of a number that is no non-negative `int`; it may raise. Years go up to
-- 9999.
pub record Times : Type 0 where
  pub now : ℕ
  pub other_number : Value → Option ℕ

unfoldable pub up_to_9999 : ℕ → Option ℕ
up_to_9999 micros = if leb micros 253402300799999999 then some micros else none

-- Seconds, millis or micros, by the size of the number; the result is in micros.
unfoldable pub scale : ℕ → ℕ
scale raw =
    if ltb 100000000000000 raw
    then raw
    else if ltb 10000000000 raw
    then raw * 1000
    else raw * 1000000

abbrev flag : Bool → ℕ
flag true = 1
flag false = 0

unfoldable pub timestamp_of : Times → Value → Option ℕ
unfolding up_to_9999 scale
timestamp_of times (Value.bool b) = up_to_9999 (scale (flag b))
timestamp_of times (Value.int (pos n)) = up_to_9999 (scale n)
timestamp_of times (Value.int (negsuc n)) = times.other_number (Value.int (negsuc n))
timestamp_of times (Value.float t) = times.other_number (Value.float t)
timestamp_of times (Value.datetime t) = some t
timestamp_of times v = some times.now

unfoldable pub parse_ts : Times → Row → Option ℕ
parse_ts times record_ = timestamp_of times (
    or_value (get (codes "_metadata_timestamp") record_)
      (get (codes "_metadata_read_timestamp") record_))

module _ (py : Printing) (json : Json) (times : Times) where
  -- `str(record.get("_metadata_operation", ""))`
  abbrev pub operation_text : Row → Text
  operation_text record_ = elim (lookup (codes "_metadata_operation") record_) [
    | none ↦ []
    | some v ↦ str py v
  ]

  unfoldable pub parse_op : Row → Operation
  parse_op record_ =
      let op_raw = upper (operation_text record_) in
      if op_raw == codes "DELETE"
      then Operation.delete
      else if op_raw == codes "UPDATE"
      then Operation.update
      else if op_raw == codes "INSERT" || op_raw == codes "READ"
      then Operation.insert
      else if truthy (get (codes "_metadata_deleted") record_)
          || truthy (get (codes "_metadata_is_deleted") record_)
      then Operation.delete
      else Operation.insert

  abbrev texts : Items → List Text
  texts nil = []
  texts (cons v vs) = str py v ∷ texts vs

  abbrev names_of : Value → List Text
  names_of (Value.list vs) = texts vs
  names_of (Value.text []) = []
  names_of (Value.text (c ∷ t)) = (c ∷ t) ∷ []
  names_of v = []

  unfoldable pub pk_fields : Row → List Text
  pk_fields record_ = names_of (
      or_value (get (codes "_metadata_primary_keys") record_)
        (get (codes "_metadata_primary_key") record_))

  unfoldable pub infer_schema_from_record : Row → List Text → List ColumnSchema
  infer_schema_from_record record_ pks = infer_schema pks (strip_meta record_)

  -- The position that the event carries: its place in the log, and only without one the place in
  -- the file.
  unfoldable pub sequence : Row → Text → Value
  sequence record_ offset =
      or_value (get (codes "_metadata_change_sequence_number") record_)
        (or_value (get (codes "_metadata_log_position") record_) (Value.text offset))

  abbrev pub build : Text → Text → Row → Text → Option Row → Option ℕ → Option ChangeEvent
  build source_name table record_ offset none ts = none
  build source_name table record_ offset (some row) none = none
  build source_name table record_ offset (some row) (some ts) =
      let op = parse_op record_ in
      some record {
        op = op;
        source_name = source_name;
        source_table = table;
        before = if is_delete op then some row else none;
        after = if is_delete op then none else some row;
        schema = infer_schema_from_record record_ (pk_fields record_);
        timestamp = some ts;
        offset = sequence record_ offset;
        tx_id = none;
      }

  -- A record that raises gives no event.
  unfoldable pub make_event : Text → Text → Row → Text → Option ChangeEvent
  make_event source_name table record_ offset =
      build source_name table record_ offset (normalise json (strip_meta record_))
        (parse_ts times record_)
