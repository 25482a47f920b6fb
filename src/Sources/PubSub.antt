-- ===== src/Sources/PubSub.antt =====
-- sources/pubsub.py: messages become events, and are acknowledged when the batch that holds them is
-- committed.
pub mod Acks
pub mod Loop
pub mod Acked
mod Tests
use dremio_cdc.Prelude.{
  ℕ, Bool, true, false, Option, none, some, List, [], ◌∷◌, ◌++◌, map, Text, text_eq, ◌==◌,
  if◌then◌else◌,
}
use dremio_cdc.Prelude.Dict.{Dict, lookup, insert}
use dremio_cdc.Prelude.Chars.{codes, lower, split, strip}
use dremio_cdc.Event.{Value, Operation, ColumnSchema, ChangeEvent, Row, Printing, str}
use dremio_cdc.Outcome.{Outcome, ok, raised, ◌>>=◌}
use dremio_cdc.Offsets.{Json}
use dremio_cdc.Dlq.Serial.{parse_operation}
use dremio_cdc.Sources.Record.{infer_schema, normalise}

-- `msg.publish_time`: none, one that is a time, or an object of another kind.
pub data PublishTime : Type 0 where
  missing other : PublishTime
  at : ℕ → PublishTime

-- A message that was pulled, by its payload.
pub record Received : Type 0 where
  pub ack_id : Text
  pub message_id : Text
  pub payload : List ℕ
  pub publish_time : PublishTime

-- `json.loads(data.decode("utf-8"))`, `none` where it raises or gives no object.
pub record Decoding : Type 0 where
  pub loads : List ℕ → Option Row

abbrev pub default_op_map : Dict Text Operation
default_op_map =
    (codes "insert", Operation.insert)
    ∷ (codes "create", Operation.insert)
    ∷ (codes "update", Operation.update)
    ∷ (codes "modify", Operation.update)
    ∷ (codes "delete", Operation.delete)
    ∷ (codes "remove", Operation.delete)
    ∷ []

-- `{**_DEFAULT_OP_MAP, **{k.lower(): Operation(v.lower())}}`; an operation of no known name raises.
unfoldable pub merge_op_map : Dict Text Operation → Dict Text Text → Outcome (Dict Text Operation)
merge_op_map m [] = ok m
merge_op_map m ((k, v) ∷ raw) = do
  op ← parse_operation (lower v)
  merge_op_map (insert (lower k) op m) raw

abbrev cons_name : Text → List Text → List Text
cons_name [] fields = fields
cons_name (c ∷ f) fields = (c ∷ f) ∷ fields

abbrev strip_names : List Text → List Text
strip_names [] = []
strip_names (f ∷ fs) = cons_name (strip f) (strip_names fs)

-- `[f.strip() for f in pk_raw.split(",") if f.strip()]`
unfoldable pub parse_pk_fields : Text → List Text
parse_pk_fields pk_raw = strip_names (split b',' pk_raw)

-- What `__init__` keeps.
pub record Config : Type 0 where
  pub name : Text
  pub op_field : Option Text
  pub op_map : Dict Text Operation
  pub pk_fields : List Text

abbrev or_insert : Option Operation → Operation
or_insert none = Operation.insert
or_insert (some op) = op

-- A row that goes before a deletion, and after any other change.
abbrev before_of : Operation → Row → Option Row
before_of Operation.delete row = some row
before_of op row = none

abbrev after_of : Operation → Row → Option Row
after_of Operation.delete row = none
after_of op row = some row

module _ (py : Printing) (json : Json) (dec : Decoding) (cfg : Config) (now : ℕ) where
  abbrev mapped : Option Value → Operation
  mapped none = Operation.insert
  mapped (some v) = or_insert (lookup (lower (str py v)) cfg.op_map)

  abbrev by_field : Option Text → Row → Operation
  by_field none row = Operation.insert
  by_field (some []) row = Operation.insert
  by_field (some (c ∷ f)) row = mapped (lookup (c ∷ f) row)

  unfoldable pub parse_op : Row → Operation
  parse_op row = by_field cfg.op_field row

  abbrev published : PublishTime → ℕ
  published PublishTime.missing = now
  published PublishTime.other = now
  published (PublishTime.at t) = t

  abbrev flat : Option Row → Option Row
  flat none = none
  flat (some row) = normalise json row

  -- The row of a message; `none` where decoding raises.
  unfoldable pub decode : Received → Option Row
  decode m = flat (dec.loads m.payload)

  abbrev pub event_from : Text → Received → Option Row → Option ChangeEvent
  event_from table m none = none
  event_from table m (some row) =
      let op = parse_op row in
      some record {
        op = op;
        source_name = cfg.name;
        source_table = table;
        before = before_of op row;
        after = after_of op row;
        schema = infer_schema cfg.pk_fields row;
        timestamp = some (published m.publish_time);
        offset = Value.text m.message_id;
        tx_id = none;
      }

  unfoldable pub event_of : Text → Received → Option ChangeEvent
  unfolding decode
  event_of table m = event_from table m (decode m)
