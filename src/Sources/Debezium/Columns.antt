-- ===== src/Sources/Debezium/Columns.antt =====
-- The rows and columns of an envelope, as Debezium documents them and sources/debezium.py reads them.
use dremio_cdc.Prelude.{
  ◌≡◌, ◌≢◌, refl, ap, ◌∙◌, true, Option, none, some, List, [], ◌∷◌, All, Text, text_eq,
  Text-discrete,
}
use dremio_cdc.Prelude.Dict.{lookup}
use dremio_cdc.Prelude.Chars.{strip}
use dremio_cdc.Event.{Value, Row, Printing, str, truthy}
use dremio_cdc.Outcome.{ok, ◌>>=◌}
use dremio_cdc.Sources.Debezium.{type_map, or_value}
use dremio_cdc.Sources.Debezium.Schema.{
  unwrap, unwrap_fields, coerce_oracle_row, parse_fields, parse_schema, key_names, data_type_of,
  cons_column, raw_type_of, parse_column, strip_text,
}
use dremio_cdc.Sources.Debezium.Envelope.{
  Column, Envelope, encode_column, column_of, encode_fields, encode_row, encode_name,
  encode_columns, encode_schema, type_of, base_type, columns_of, Plain, PlainRow, Trimmed,
  EnvelopeFits,
}

unwrap-Plain : (py : Printing) (v : Value) → Plain v → unwrap py v ≡ v
unwrap-Plain py (Value.dict fs) h = rw (h, unwrap)
unwrap-Plain py Value.null h = refl
unwrap-Plain py (Value.bool b) h = refl
unwrap-Plain py (Value.int n) h = refl
unwrap-Plain py (Value.float t) h = refl
unwrap-Plain py (Value.decimal t) h = refl
unwrap-Plain py (Value.text t) h = refl
unwrap-Plain py (Value.bytes b) h = refl
unwrap-Plain py (Value.datetime t) h = refl
unwrap-Plain py (Value.date d) h = refl
unwrap-Plain py (Value.list vs) h = refl

unwrap_fields-encode :
    (py : Printing) (row : Row)
    → All (λ (p : Text × Value). Plain p.1) row
    → unwrap_fields py (encode_fields row) ≡ row
unwrap_fields-encode py [] h = refl
unwrap_fields-encode py ((k, v) ∷ row) h =
    λ i. (k, unwrap-Plain py v h.0 i) ∷ unwrap_fields-encode py row h.1 i

pub coerce-encode_row :
    (py : Printing) (o : Option Row) → PlainRow o → coerce_oracle_row py (encode_row o) ≡ ok o
unfolding coerce_oracle_row truthy
coerce-encode_row py none h = refl
coerce-encode_row py (some row) h = ap (λ r. ok (some r)) (unwrap_fields-encode py row h)

abbrev logical_text : Option Text → Text
logical_text none = []
logical_text (some l) = l

strip_text-logical :
    (py : Printing) (o : Option Text)
    → Trimmed o
    → strip_text py (or_value (encode_name o) (Value.text [])) ≡ ok (logical_text o)
unfolding strip_text strip truthy
strip_text-logical py none h = refl
strip_text-logical py (some []) h = refl
strip_text-logical py (some (c ∷ l)) h = ap ok h

pick :
    (py : Printing) (o : Option Text) (raw : Text)
    → elim o [ none ↦ raw_type_of py (Value.text raw) | some d ↦ ok d ]
      ≡ ok (elim o [ none ↦ base_type raw | some d ↦ d ])
unfolding raw_type_of
pick py none raw = refl
pick py (some d) raw = refl

data_type_of-logical :
    (py : Printing) (o : Option Text) (raw : Text)
    → data_type_of py (logical_text o) (Value.text raw) ≡ ok (type_of o raw)
unfolding Text-discrete raw_type_of
data_type_of-logical py none raw = refl
data_type_of-logical py (some l) raw = pick py (lookup l type_map) raw

named : (t : Text) → t ≢ [] → truthy (Value.text t) ≡ true
unfolding truthy
named [] h = absurd (h refl)
named (c ∷ t) h = refl

parse_column-encode :
    (py : Printing) (c : Column)
    → Trimmed c.logical
    → parse_column py [] (Value.text c.name) (encode_column c) ≡ ok (column_of c)
unfolding parse_column Text-discrete str truthy
parse_column-encode py c h =
    rw (strip_text-logical py c.logical h, ◌>>=◌)
      (rw (data_type_of-logical py c.logical c.raw_type, ◌>>=◌) refl)

parse_fields-encode :
    (py : Printing) (cs : List Column)
    → All (λ c. (c.name ≢ []) × Trimmed c.logical) cs
    → parse_fields py [] (encode_columns cs) ≡ ok (columns_of cs)
unfolding parse_fields Text-discrete
parse_fields-encode py [] h = refl
parse_fields-encode py (c ∷ cs) h = rw (named c.name h.0.0) (
    ap (λ o. cons_column py true o (parse_fields py [] (encode_columns cs)))
      (parse_column-encode py c h.0.1)
    ∙ ap (cons_column py true (ok (column_of c))) (parse_fields-encode py cs h.1))

pub parse_schema-encode :
    (py : Printing) (e : Envelope)
    → EnvelopeFits e
    → parse_schema py (encode_schema e) ≡ ok (columns_of e.columns)
unfolding parse_schema Text-discrete key_names truthy
parse_schema-encode py e f = parse_fields-encode py e.columns f.names
