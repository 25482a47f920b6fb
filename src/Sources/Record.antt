-- ===== src/Sources/Record.antt =====
-- Records that come as JSON or Avro: what sources/pubsub.py and sources/datastream.py both make of
-- them.
use dremio_cdc.Prelude.{
  true, false, Option, none, some, List, [], ◌∷◌, map, Text, text_eq, contains,
}
use dremio_cdc.Prelude.Dict.{lookup}
use dremio_cdc.Prelude.Chars.{codes}
use dremio_cdc.Event.{Value, ColumnSchema, Row, truthy}
use dremio_cdc.Offsets.{Json}

-- `_infer_type`
unfoldable pub infer_type : Value → Text
infer_type (Value.bool b) = codes "boolean"
infer_type (Value.int n) = codes "bigint"
infer_type (Value.float t) = codes "double"
infer_type v = codes "varchar"

unfoldable pub infer_schema : List Text → Row → List ColumnSchema
unfolding infer_type
infer_schema pk_fields = map (λ p. record {
  name = p.0;
  data_type = infer_type p.1;
  nullable = true;
  primary_key = contains p.0 pk_fields;
})

-- Nested values become JSON texts; `json.dumps` may raise.
abbrev pub flatten : Json → Value → Option Value
flatten json (Value.list xs) = elim (json.dumps (Value.list xs)) [
  | none ↦ none
  | some t ↦ some (Value.text t)
]
flatten json (Value.dict fs) = elim (json.dumps (Value.dict fs)) [
  | none ↦ none
  | some t ↦ some (Value.text t)
]
flatten json v = some v

abbrev pub cons_field : Text → Option Value → Option Row → Option Row
cons_field k none row = none
cons_field k (some v) none = none
cons_field k (some v) (some row) = some ((k, v) ∷ row)

unfoldable pub normalise : Json → Row → Option Row
normalise json [] = some []
normalise json ((k, v) ∷ row) = cons_field k (flatten json v) (normalise json row)

-- `record.get(k)`
abbrev or_null : Option Value → Value
or_null none = Value.null
or_null (some v) = v

abbrev pub get : Text → Row → Value
get k row = or_null (lookup k row)

-- `a or b`
abbrev pub or_value : Value → Value → Value
or_value a b = elim (truthy a) [ true ↦ a | false ↦ b ]
