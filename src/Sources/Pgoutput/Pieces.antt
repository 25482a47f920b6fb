-- ===== src/Sources/Pgoutput/Pieces.antt =====
-- The numbers, columns and tuples of the pgoutput protocol, read by the parser of sources/postgres.py.
use dremio_cdc.Prelude.{
  ℕ, ◌+◌, ◌%◌, ◌/◌, ◌*◌, ◌<◌, ◌≡◌, ◌≢◌, refl, sym, ap, ◌∙◌, Bool, true, false, none, List, [], ◌∷◌,
  ◌++◌, map, append_assoc, append-nil, All, Text, text_eq, nat_eq, length, take, drop, arith, ◌=ℕ◌,
}
use dremio_cdc.Prelude.Dict.{lookup, insert, lookup-insert_ne, insert-fresh}
use dremio_cdc.Event.{Value, ColumnSchema, Row}
use dremio_cdc.Outcome.{ok, ◌>>=◌, bind-ok}
use dremio_cdc.Sources.Pgoutput.{
  Bytes, Utf8, byte, u16, u32, until_zero, c_string, parse_column, parse_columns, read_relation,
  decode_value, decode_fields, decode_tuple,
}
use dremio_cdc.Sources.Pgoutput.Wire.{
  be16, be32, Cell, kind_of, body, encode_cells, encode_tuple, Fits, Column, flags_of,
  encode_columns, Description, description_body, schema_of, relation_of, Spells, ColumnFits,
  DescriptionFits, TupleFits, Distinct, value_of, row_of,
}

take-append : (t rest : Bytes) → take (length t) (t ++ rest) ≡ t
take-append [] rest = refl
take-append (b ∷ t) rest = ap (λ s. b ∷ s) (take-append t rest)

drop-append : (t rest : Bytes) → drop (length t) (t ++ rest) ≡ rest
drop-append [] rest = refl
drop-append (b ∷ t) rest = drop-append t rest

u16-be16 : (n : ℕ) (rest : Bytes) → n < 65536 → u16 (be16 n ++ rest) ≡ ok (n, rest)
unfolding u16
u16-be16 n rest h =
    let e : n / 256 % 256 * 256 + n % 256 ≡ n = omega arith in ap (λ (m : ℕ). ok (m, rest)) e

pub u32-be32 : (n : ℕ) (rest : Bytes) → n < 4294967296 → u32 (be32 n ++ rest) ≡ ok (n, rest)
unfolding u32
u32-be32 n rest h =
    let e : n / 16777216 % 256 * 16777216 + n / 65536 % 256 * 65536 + n / 256 % 256 * 256 + n % 256
        ≡ n =
      omega arith in
    ap (λ (m : ℕ). ok (m, rest)) e

until_zero-append :
    (t rest : Bytes) → All (λ (b : ℕ). b ≢ 0) t → until_zero (t ++ (0 ∷ rest)) ≡ ok (t, rest)
unfolding until_zero
until_zero-append [] rest h = refl
until_zero-append (b ∷ t) rest h = ground (arith, until_zero-append t rest h.1, h.0)

module _ (utf : Utf8) where
  c_string-spelled :
      (raw rest : Bytes) (name : Text)
      → Spells utf raw name
      → c_string utf (raw ++ (0 ∷ rest)) ≡ ok (name, rest)
  unfolding c_string
  c_string-spelled raw rest name h = bind-ok _ (until_zero-append raw rest h.1) (bind-ok _ h.0 refl)

  flags-key : (b : Bool) → ((flags_of b % 2) =ℕ 1) ≡ b
  flags-key true = refl
  flags-key false = refl

  parse_column-encoded :
      (c : Column) (rest : Bytes)
      → ColumnFits utf c
      → parse_column utf
          (flags_of c.key ∷ (c.raw ++ (0 ∷ (be32 c.oid ++ (be32 c.modifier ++ rest)))))
        ≡ ok (schema_of c, rest)
  unfolding parse_column byte
  parse_column-encoded c rest h =
      rw (c_string-spelled c.raw (be32 c.oid ++ (be32 c.modifier ++ rest)) c.name h.0, ◌>>=◌)
        (rw (u32-be32 c.oid (be32 c.modifier ++ rest) h.1, ◌>>=◌) (rw (flags-key c.key)))

  parse_columns-encoded :
      (cs : List Column) (acc : List ColumnSchema)
      → All (ColumnFits utf) cs
      → parse_columns utf (length cs) acc (encode_columns cs) ≡ ok (acc ++ map schema_of cs)
  unfolding parse_columns
  parse_columns-encoded [] acc h = ap ok (sym (append-nil acc))
  parse_columns-encoded (c ∷ cs) acc h =
      bind-ok _ (parse_column-encoded c (encode_columns cs) h.0) (
        parse_columns-encoded cs (acc ++ (schema_of c ∷ [])) h.1
        ∙ ap ok (append_assoc acc (schema_of c ∷ []) (map schema_of cs)))

  pub read_relation-body :
      (r : Description)
      → DescriptionFits utf r
      → read_relation utf (description_body r) ≡ ok (r.id, relation_of r)
  unfolding read_relation
  read_relation-body r h =
      let columns = be16 (length r.columns) ++ encode_columns r.columns in
      let name = r.raw_name ++ (0 ∷ (r.identity ∷ columns)) in
      rw (u32-be32 r.id (r.raw_namespace ++ (0 ∷ name)) h.id_fits, ◌>>=◌)
        (rw (c_string-spelled r.raw_namespace name r.namespace h.namespace_fits, ◌>>=◌)
          (rw (c_string-spelled r.raw_name (r.identity ∷ columns) r.name h.name_fits, ◌>>=◌)
            (rw (u16-be16 (length r.columns) (encode_columns r.columns) h.count_fits, ◌>>=◌)
              (rw (parse_columns-encoded r.columns [] h.columns_fit, ◌>>=◌)))))

  -- A value is written under the name of its column.
  decode_value-cell :
      (x : Cell) (name : Text) (row : Row) (rest : Bytes)
      → Fits x
      → decode_value utf (kind_of x) name row (body x ++ rest)
        ≡ ok (insert name (value_of utf x) row, rest)
  unfolding decode_value
  decode_value-cell Cell.null name row rest h = refl
  decode_value-cell (Cell.text t) name row rest h =
      rw (u32-be32 (length t) (t ++ rest) h, ◌>>=◌) (rw (take-append t rest, drop-append t rest))

  -- What the loop makes of a row, column by column.
  abbrev writes : List ColumnSchema → List Cell → Row → Row
  writes [] cells row = row
  writes (c ∷ cs) [] row = row
  writes (c ∷ cs) (x ∷ xs) row = writes cs xs (insert c.name (value_of utf x) row)

  decode_fields-cells :
      (columns : List ColumnSchema) (cells : List Cell) (row : Row) (rest : Bytes)
      → length cells ≡ length columns
      → All Fits cells
      → decode_fields utf (length cells) columns row (encode_cells cells ++ rest)
        ≡ ok (writes columns cells row, rest)
  unfolding decode_fields byte
  decode_fields-cells [] [] row rest e h = refl
  decode_fields-cells [] (x ∷ xs) row rest e h = absurd (omega arith)
  decode_fields-cells (c ∷ cs) [] row rest e h = absurd (omega arith)
  decode_fields-cells (c ∷ cs) (x ∷ xs) row rest e h =
      rw (append_assoc (body x) (encode_cells xs) rest) (
        bind-ok _ (decode_value-cell x c.name row (encode_cells xs ++ rest) h.0)
          (decode_fields-cells cs xs _ rest (omega arith) h.1))

  -- No column of the list is in the row yet.
  abbrev Fresh : List ColumnSchema → Row → Type 0
  Fresh columns row = All (λ (c : ColumnSchema). lookup c.name row ≡ none) columns

  Fresh-insert :
      (name : Text) (v : Value) (columns : List ColumnSchema) (row : Row)
      → All (λ (c : ColumnSchema). name ≢ c.name) columns
      → Fresh columns row
      → Fresh columns (insert name v row)
  Fresh-insert name v [] row d f = tt
  Fresh-insert name v (c ∷ cs) row d f =
      (lookup-insert_ne name c.name v row d.0 ∙ f.0, Fresh-insert name v cs row d.1 f.1)

  Fresh-empty : (columns : List ColumnSchema) → Fresh columns []
  Fresh-empty [] = tt
  Fresh-empty (c ∷ cs) = (refl, Fresh-empty cs)

  writes-row_of :
      (columns : List ColumnSchema) (cells : List Cell) (row : Row)
      → Distinct columns
      → Fresh columns row
      → writes columns cells row ≡ row ++ row_of utf columns cells
  writes-row_of [] cells row d f = sym (append-nil row)
  writes-row_of (c ∷ cs) [] row d f = sym (append-nil row)
  writes-row_of (c ∷ cs) (x ∷ xs) row d f =
      writes-row_of cs xs (insert c.name (value_of utf x) row) d.1
        (Fresh-insert c.name (value_of utf x) cs row d.0 f.1)
      ∙ (ap (λ r. r ++ row_of utf cs xs) (insert-fresh c.name (value_of utf x) row f.0)
          ∙ append_assoc row ((c.name, value_of utf x) ∷ []) (row_of utf cs xs))

  pub decode_tuple-encoded :
      (columns : List ColumnSchema) (cells : List Cell) (rest : Bytes)
      → Distinct columns
      → TupleFits columns cells
      → decode_tuple utf columns (encode_tuple cells ++ rest) ≡ ok (row_of utf columns cells, rest)
  unfolding decode_tuple
  decode_tuple-encoded columns cells rest d h =
      rw (u16-be16 (length cells) (encode_cells cells ++ rest) h.1, ◌>>=◌)
        (decode_fields-cells columns cells [] rest h.0 h.2
          ∙ ap (λ (r : Row). ok (r, rest)) (writes-row_of columns cells [] d (Fresh-empty columns)))

  pub decode_tuple_last :
      (columns : List ColumnSchema) (cells : List Cell)
      → Distinct columns
      → TupleFits columns cells
      → decode_tuple utf columns (encode_tuple cells) ≡ ok (row_of utf columns cells, [])
  decode_tuple_last columns cells d h =
      ap (λ (bs : Bytes). decode_tuple utf columns (be16 (length cells) ++ bs))
        (sym (append-nil (encode_cells cells)))
      ∙ decode_tuple-encoded columns cells [] d h
  -- The event that a change of a relation stands for.
