-- ===== src/Sources/Pgoutput.antt =====
-- The parser of the pgoutput protocol in sources/postgres.py. `data[pos:]` is the list of the bytes
-- from the cursor on.
pub mod Wire
pub mod Message
pub mod Pieces
pub mod RoundTrip
pub mod Fanout
pub mod Thread
mod Tests
use dremio_cdc.Prelude.{
  ℕ, zero, suc, ◌+◌, ◌*◌, ◌%◌, Bool, true, false, not, ◌&&◌, Option, none, some, List, [], ◌∷◌,
  ◌++◌, Text, ◌==◌, nat_eq, text_eq, length, take, drop, ◌=ℕ◌, if◌then◌else◌,
}
use dremio_cdc.Prelude.Dict.{Dict, lookup, insert}
use dremio_cdc.Prelude.Chars.{codes}
use dremio_cdc.Event.{Value, Operation, ColumnSchema, ChangeEvent, Row}
use dremio_cdc.Outcome.{Outcome, ok, raised, ◌>>=◌}

abbrev pub Bytes : Type 0
Bytes = List ℕ

-- Python's UTF-8: `decode()`, which raises on bytes that are none, and `decode(errors="replace")`.
pub record Utf8 : Type 0 where
  pub decode : Bytes → Outcome Text
  pub decode_replace : Bytes → Text

-- `_OID_TYPES`
abbrev pub oid_types : Dict ℕ Text
oid_types =
    (16, codes "boolean")
    ∷ (20, codes "bigint")
    ∷ (21, codes "smallint")
    ∷ (23, codes "integer")
    ∷ (25, codes "text")
    ∷ (700, codes "float")
    ∷ (701, codes "double")
    ∷ (1043, codes "varchar")
    ∷ (1082, codes "date")
    ∷ (1083, codes "time")
    ∷ (1114, codes "timestamp")
    ∷ (1184, codes "timestamp")
    ∷ (1700, codes "numeric")
    ∷ (2950, codes "uuid")
    ∷ (3802, codes "jsonb")
    ∷ (114, codes "json")
    ∷ []

abbrev or_else {ℓ} : {A : Type ℓ} → A → Option A → A
or_else d none = d
or_else d (some a) = a

unfoldable pub oid_to_type : ℕ → Text
oid_to_type oid = or_else (codes "varchar") (lookup oid oid_types)

-- `data[pos]; pos += 1`
unfoldable pub byte : Bytes → Outcome (ℕ × Bytes)
byte [] = raised (codes "index out of range")
byte (b ∷ bs) = ok (b, bs)

-- `struct.unpack_from(">H", data, pos)` and `">I"`, and the step of `pos`.
unfoldable pub u16 : Bytes → Outcome (ℕ × Bytes)
u16 (a ∷ b ∷ bs) = ok (a * 256 + b, bs)
u16 bs = raised (codes "unpack_from requires a buffer")

unfoldable pub u32 : Bytes → Outcome (ℕ × Bytes)
u32 (a ∷ b ∷ c ∷ d ∷ bs) = ok (a * 16777216 + b * 65536 + c * 256 + d, bs)
u32 bs = raised (codes "unpack_from requires a buffer")

-- `data.index(b'\x00', pos)`, with the bytes before the zero and those behind it.
abbrev cons_before : ℕ → Outcome (Bytes × Bytes) → Outcome (Bytes × Bytes)
cons_before b (ok (before, after)) = ok (b ∷ before, after)
cons_before b (raised message) = raised message

unfoldable pub until_zero : Bytes → Outcome (Bytes × Bytes)
until_zero [] = raised (codes "subsection not found")
until_zero (b ∷ bs) = let rest = until_zero bs in if b =ℕ 0 then ok ([], bs) else cons_before b rest

-- `self._relations`: the last description of each relation.
pub record Relation : Type 0 where
  pub namespace : Text
  pub name : Text
  pub columns : List ColumnSchema

abbrev pub Relations : Type 0
Relations = Dict ℕ Relation

-- `f"{namespace}.{name}"`, with the defaults of a relation that was not described.
unfoldable pub table_of : Option Relation → Text
table_of none = codes "public.unknown"
table_of (some r) = r.namespace ++ (b'.' ∷ r.name)

abbrev pub columns_of : Option Relation → List ColumnSchema
columns_of none = []
columns_of (some r) = r.columns

-- One value of a tuple, by its kind; on any other kind the column is left out.
unfoldable pub decode_value : Utf8 → ℕ → Text → Row → Bytes → Outcome (Row × Bytes)
decode_value utf kind name row bs =
    if kind =ℕ b'n'
    then ok (insert name Value.null row, bs)
    else if kind =ℕ b'u'
    then ok (insert name Value.null row, bs)
    else if kind =ℕ b't'
    then u32 bs
      >>= (λ p. ok (insert name (Value.text (utf.decode_replace (take p.0 p.1))) row, drop p.0 p.1))
    else ok (row, bs)

module _ (utf : Utf8) where
  -- A string that ends in a zero byte.
  unfoldable pub c_string : Bytes → Outcome (Text × Bytes)
  c_string bs = do p ← until_zero bs; name ← utf.decode p.0; ok (name, p.1)

  -- One column of a relation message; the bit of weight 1 in `flags` marks the key.
  unfoldable pub parse_column : Bytes → Outcome (ColumnSchema × Bytes)
  unfolding byte
  parse_column bs = do
    flags ← byte bs
    name ← c_string flags.1
    oid ← u32 name.1
    ok (
      record {
        name = name.0;
        data_type = oid_to_type oid.0;
        nullable = true;
        primary_key = (flags.0 % 2) =ℕ 1;
      },
      drop 4 oid.1,
    )

  unfoldable pub parse_columns : ℕ → List ColumnSchema → Bytes → Outcome (List ColumnSchema)
  parse_columns zero columns bs = ok columns
  parse_columns (suc n) columns bs =
      parse_column bs >>= (λ p. parse_columns n (columns ++ (p.0 ∷ [])) p.1)

  unfoldable pub read_relation : Bytes → Outcome (ℕ × Relation)
  read_relation bs = do
    id ← u32 bs
    namespace ← c_string id.1
    name ← c_string namespace.1
    count ← u16 (drop 1 name.1)
    columns ← parse_columns count.0 [] count.1
    ok (id.0, record { namespace = namespace.0; name = name.0; columns = columns })

  -- The loop over `range(min(num_cols, len(columns)))`.
  unfoldable pub decode_fields : ℕ → List ColumnSchema → Row → Bytes → Outcome (Row × Bytes)
  decode_fields zero columns row bs = ok (row, bs)
  decode_fields (suc n) [] row bs = ok (row, bs)
  decode_fields (suc n) (c ∷ columns) row bs = do
    kind ← byte bs
    p ← decode_value utf kind.0 c.name row kind.1
    decode_fields n columns p.0 p.1

  unfoldable pub decode_tuple : List ColumnSchema → Bytes → Outcome (Row × Bytes)
  decode_tuple columns bs = do count ← u16 bs; decode_fields count.0 columns [] count.1
