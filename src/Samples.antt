-- ===== src/Samples.antt =====
-- Test data that the components' tests share: concrete printing functions, rows and events.
use dremio_cdc.Prelude.{
  ℕ, ◌≡◌, ◌=ℕ◌, if◌then◌else◌, arith, ◌≢◌, refl, true, false, Option, none, some, [], ◌∷◌, Text,
}
use dremio_cdc.Prelude.Chars.{codes}
use dremio_cdc.Prelude.Int.{pos}
use dremio_cdc.Offsets.{Json}
use dremio_cdc.Event.{Value, Operation, Row, ColumnSchema, ChangeEvent, Printing}

head_or_zero : Text → ℕ
head_or_zero [] = 0
head_or_zero (c ∷ s) = c

one_point-ne-empty : (t : ℕ) → ◌≢◌ {A = Text} (t ∷ []) []
one_point-ne-empty t h = cc

-- A calendar that writes an instant as one code point.
abbrev pub plain : Printing
unfolding head_or_zero one_point-ne-empty
plain = record {
  isoformat = λ t. t ∷ [];
  fromisoformat = head_or_zero;
  date_isoformat = λ d. d ∷ [];
  float_of_decimal = λ t. t;
  repr = λ v. codes "?";
  fromisoformat-isoformat = λ t. refl;
  isoformat-ne-empty = one_point-ne-empty;
}

abbrev pub id_column : ColumnSchema
id_column = record {
  name = codes "id";
  data_type = codes "bigint";
  nullable = false;
  primary_key = true;
}

abbrev pub ssn_column : ColumnSchema
ssn_column = record {
  name = codes "ssn";
  data_type = codes "varchar";
  nullable = true;
  primary_key = false;
}

abbrev pub person : ℕ → Text → Row
person id ssn = (codes "id", Value.int (pos id)) ∷ (codes "ssn", Value.text ssn) ∷ []

abbrev pub event_of : Operation → Option Row → Option Row → Value → ChangeEvent
event_of op before after offset = record {
  op = op;
  source_name = codes "pg";
  source_table = codes "people";
  before = before;
  after = after;
  schema = id_column ∷ ssn_column ∷ [];
  timestamp = some 7;
  offset = offset;
  tx_id = none;
}

-- An insert of one row at an offset.
abbrev pub inserted : ℕ → Text → ℕ → ChangeEvent
inserted id ssn at = event_of Operation.insert none (some (person id ssn)) (Value.int (pos at))

abbrev pub deleted : ℕ → ℕ → ChangeEvent
deleted id at = event_of Operation.delete (some (person id [])) none (Value.int (pos at))

-- JSON of None and of texts alone.
unfoldable pub toy_dumps : Value → Option Text
toy_dumps Value.null = some (b'n' ∷ [])
toy_dumps (Value.text t) = some (b't' ∷ t)
toy_dumps _ = none

unfoldable pub toy_loads : Text → Value
toy_loads [] = Value.null
toy_loads (c ∷ t) = if c =ℕ b't' then Value.text t else Value.null

pub toy_loads-toy_dumps : (v : Value) (t : Text) → toy_dumps v ≡ some t → toy_loads t ≡ v
unfolding toy_dumps toy_loads
toy_loads-toy_dumps Value.null t h = ground arith
toy_loads-toy_dumps (Value.text x) t h = ground arith
toy_loads-toy_dumps _ t h = cc

pub toy_dumps-ne-empty : (v : Value) → toy_dumps v ≢ some []
unfolding toy_dumps
toy_dumps-ne-empty Value.null h = cc
toy_dumps-ne-empty (Value.text x) h = cc
toy_dumps-ne-empty _ h = cc

abbrev pub toy_json : Json
unfolding toy_dumps toy_loads
toy_json = record {
  dumps = toy_dumps;
  loads = toy_loads;
  loads-dumps = toy_loads-toy_dumps;
  dumps-ne-empty = toy_dumps-ne-empty;
}
