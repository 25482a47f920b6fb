-- ===== src/Iceberg/Types.antt =====
-- `_pa_type` and `_iceberg_type` of core/iceberg_sink.py.
use dremio_cdc.Prelude.{none, some, List, [], ◌∷◌, Text, text_eq}
use dremio_cdc.Prelude.Chars.{codes, lower, split}
use dremio_cdc.Prelude.Dict.{Dict, lookup}

pub data PaType : Type 0 where
  string int16 int32 int64 float32 float64 bool timestamp_us date32 time64_us binary : PaType

pub data IcebergType : Type 0 where
  string_type integer_type long_type float_type double_type boolean_type : IcebergType
  timestamp_type date_type time_type binary_type : IcebergType

abbrev pub pa_types : Dict Text PaType
pa_types =
    (codes "varchar", string)
    ∷ (codes "text", string)
    ∷ (codes "char", string)
    ∷ (codes "int", int32)
    ∷ (codes "integer", int32)
    ∷ (codes "bigint", int64)
    ∷ (codes "smallint", int16)
    ∷ (codes "float", float32)
    ∷ (codes "double", float64)
    ∷ (codes "numeric", float64)
    ∷ (codes "decimal", float64)
    ∷ (codes "boolean", bool)
    ∷ (codes "bool", bool)
    ∷ (codes "timestamp", timestamp_us)
    ∷ (codes "date", date32)
    ∷ (codes "time", time64_us)
    ∷ (codes "bytea", binary)
    ∷ (codes "json", string)
    ∷ (codes "jsonb", string)
    ∷ (codes "uuid", string)
    ∷ (codes "int64", int64)
    ∷ (codes "float64", float64)
    ∷ (codes "string", string)
    ∷ (codes "bytes", binary)
    ∷ []

abbrev pub iceberg_types : Dict Text IcebergType
iceberg_types =
    (codes "varchar", string_type)
    ∷ (codes "text", string_type)
    ∷ (codes "char", string_type)
    ∷ (codes "int", integer_type)
    ∷ (codes "integer", integer_type)
    ∷ (codes "bigint", long_type)
    ∷ (codes "smallint", integer_type)
    ∷ (codes "float", float_type)
    ∷ (codes "double", double_type)
    ∷ (codes "numeric", double_type)
    ∷ (codes "decimal", double_type)
    ∷ (codes "boolean", boolean_type)
    ∷ (codes "bool", boolean_type)
    ∷ (codes "timestamp", timestamp_type)
    ∷ (codes "date", date_type)
    ∷ (codes "time", time_type)
    ∷ (codes "bytea", binary_type)
    ∷ (codes "json", string_type)
    ∷ (codes "jsonb", string_type)
    ∷ (codes "uuid", string_type)
    ∷ (codes "int64", long_type)
    ∷ (codes "float64", double_type)
    ∷ (codes "string", string_type)
    ∷ (codes "bytes", binary_type)
    ∷ []

-- `col_type.lower().split("(")[0]`
abbrev pub base_name : List Text → Text
base_name [] = []
base_name (p ∷ ps) = p

unfoldable pub pa_type : Text → PaType
unfolding split
pa_type col_type = elim (lookup (base_name (split b'(' (lower col_type))) pa_types) [
  | none ↦ string
  | some t ↦ t
]

unfoldable pub iceberg_type : Text → IcebergType
unfolding split
iceberg_type col_type = elim (lookup (base_name (split b'(' (lower col_type))) iceberg_types) [
  | none ↦ string_type
  | some t ↦ t
]
