-- ===== src/Sources/Pgoutput/Wire.antt =====
-- The messages of the pgoutput protocol as its documentation lays them out: what Postgres sends. A
-- change here sends every value; the mark `u`, of a value that did not change and is not sent, is
-- left out.
use dremio_cdc.Prelude.{
  ℕ, ◌/◌, ◌%◌, ◌<◌, ◌≡◌, ◌≢◌, Bool, true, false, Option, none, some, List, [], ◌∷◌, ◌++◌, map, All,
  Text, length,
}
use dremio_cdc.Event.{Value, ColumnSchema, Row}
use dremio_cdc.Outcome.{ok}
use dremio_cdc.Sources.Pgoutput.{Bytes, Utf8, Relation, oid_to_type}

-- Big-endian numbers of two and of four bytes.
abbrev pub be16 : ℕ → Bytes
be16 n = (n / 256 % 256) ∷ (n % 256) ∷ []

abbrev pub be32 : ℕ → Bytes
be32 n = (n / 16777216 % 256) ∷ (n / 65536 % 256) ∷ (n / 256 % 256) ∷ (n % 256) ∷ []

-- A value of a tuple: NULL, or a text.
pub data Cell : Type 0 where
  null : Cell
  text : Bytes → Cell

abbrev pub kind_of : Cell → ℕ
kind_of Cell.null = b'n'
kind_of (Cell.text t) = b't'

abbrev pub body : Cell → Bytes
body Cell.null = []
body (Cell.text t) = be32 (length t) ++ t

abbrev pub encode_cells : List Cell → Bytes
encode_cells [] = []
encode_cells (x ∷ xs) = kind_of x ∷ (body x ++ encode_cells xs)

abbrev pub encode_tuple : List Cell → Bytes
encode_tuple cells = be16 (length cells) ++ encode_cells cells

abbrev pub Fits : Cell → Type 0
Fits Cell.null = Unit {0}
Fits (Cell.text t) = length t < 4294967296

-- A column of a relation: the bytes of its name, and the name that they spell.
pub record Column : Type 0 where
  pub key : Bool
  pub raw : Bytes
  pub name : Text
  pub oid : ℕ
  pub modifier : ℕ

abbrev pub flags_of : Bool → ℕ
flags_of true = 1
flags_of false = 0

abbrev pub encode_columns : List Column → Bytes
encode_columns [] = []
encode_columns (c ∷ cs) =
    flags_of c.key ∷ (c.raw ++ (0 ∷ (be32 c.oid ++ (be32 c.modifier ++ encode_columns cs))))

pub record Description : Type 0 where
  pub id : ℕ
  pub raw_namespace : Bytes
  pub namespace : Text
  pub raw_name : Bytes
  pub name : Text
  pub identity : ℕ
  pub columns : List Column

abbrev pub description_body : Description → Bytes
description_body r =
    be32 r.id
    ++ (r.raw_namespace
        ++ (0
            ∷ (r.raw_name
                ++ (0 ∷ (r.identity ∷ (be16 (length r.columns) ++ encode_columns r.columns))))))

abbrev pub encode_description : Description → Bytes
encode_description r = b'R' ∷ description_body r

-- The relation that a description is about.
abbrev pub schema_of : Column → ColumnSchema
schema_of c = record {
  name = c.name;
  data_type = oid_to_type c.oid;
  nullable = true;
  primary_key = c.key;
}

abbrev pub relation_of : Description → Relation
relation_of r = record { namespace = r.namespace; name = r.name; columns = map schema_of r.columns }

-- The bytes spell the name and hold no zero byte.
abbrev pub Spells : Utf8 → Bytes → Text → Type 0
Spells utf raw name = (utf.decode raw ≡ ok name) × All (λ (b : ℕ). b ≢ 0) raw

abbrev pub ColumnFits : Utf8 → Column → Type 0
ColumnFits utf c = Spells utf c.raw c.name × (c.oid < 4294967296)

pub record DescriptionFits (utf : Utf8) (r : Description) : Type 0 where
  pub id_fits : r.id < 4294967296
  pub namespace_fits : Spells utf r.raw_namespace r.namespace
  pub name_fits : Spells utf r.raw_name r.name
  pub count_fits : length r.columns < 65536
  pub columns_fit : All (ColumnFits utf) r.columns

-- A change of a row. The old row comes with an update as its key, in full, or not at all, and with a
-- deletion as its key or in full.
pub data Old : Type 0 where
  key full : List Cell → Old

pub data Change : Type 0 where
  insert : List Cell → Change
  update : Option Old → List Cell → Change
  delete : Old → Change

abbrev pub old_cells : Old → List Cell
old_cells (Old.key cells) = cells
old_cells (Old.full cells) = cells

abbrev pub encode_old : Old → Bytes
encode_old (Old.key cells) = b'K' ∷ encode_tuple cells
encode_old (Old.full cells) = b'O' ∷ encode_tuple cells

abbrev pub encode_before : Option Old → Bytes → Bytes
encode_before none rest = rest
encode_before (some old) rest = encode_old old ++ rest

abbrev pub encode_change : ℕ → Change → Bytes
encode_change id (Change.insert cells) = b'I' ∷ (be32 id ++ (b'N' ∷ encode_tuple cells))
encode_change id (Change.update before cells) =
    b'U' ∷ (be32 id ++ encode_before before (b'N' ∷ encode_tuple cells))
encode_change id (Change.delete old) = b'D' ∷ (be32 id ++ encode_old old)

-- A tuple of a relation has a value for each of its columns.
abbrev pub TupleFits : List ColumnSchema → List Cell → Type 0
TupleFits columns cells = (length cells ≡ length columns) × (length cells < 65536) × All Fits cells

abbrev pub BeforeFits : List ColumnSchema → Option Old → Type 0
BeforeFits columns none = Unit {0}
BeforeFits columns (some old) = TupleFits columns (old_cells old)

abbrev pub ChangeFits : List ColumnSchema → Change → Type 0
ChangeFits columns (Change.insert cells) = TupleFits columns cells
ChangeFits columns (Change.update before cells) =
    BeforeFits columns before × TupleFits columns cells
ChangeFits columns (Change.delete old) = TupleFits columns (old_cells old)

-- No two columns have one name.
abbrev pub Distinct : List ColumnSchema → Type 0
Distinct [] = Unit {0}
Distinct (c ∷ cs) = All (λ (e : ColumnSchema). c.name ≢ e.name) cs × Distinct cs

-- The row that a tuple stands for.
module _ (utf : Utf8) where
  abbrev pub value_of : Cell → Value
  value_of Cell.null = Value.null
  value_of (Cell.text t) = Value.text (utf.decode_replace t)

  abbrev pub row_of : List ColumnSchema → List Cell → Row
  row_of [] cells = []
  row_of (c ∷ cs) [] = []
  row_of (c ∷ cs) (x ∷ xs) = (c.name, value_of x) ∷ row_of cs xs

  abbrev pub old_row : List ColumnSchema → Option Old → Option Row
  old_row columns none = none
  old_row columns (some old) = some (row_of columns (old_cells old))
