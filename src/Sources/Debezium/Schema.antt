-- ===== src/Sources/Debezium/Schema.antt =====
-- sources/debezium.py: the columns of an envelope and the values of its rows.
use dremio_cdc.Prelude.{
  Bool, true, false, Option, none, some, List, [], ◌∷◌, map, Text, text_eq, contains, if◌then◌else◌,
}
use dremio_cdc.Prelude.Dict.{lookup}
use dremio_cdc.Prelude.Chars.{codes, strip}
use dremio_cdc.Event.{
  Value, Items, Fields, nil, cons, end, field, ColumnSchema, Row, Printing, str, truthy,
}
use dremio_cdc.Outcome.{Outcome, ok, raised, ◌>>=◌}
use dremio_cdc.Sources.Debezium.{type_map, find, get, is_text, or_value}

module _ (py : Printing) where
  abbrev value_text : Option Value → Value → Value
  value_text none v = v
  value_text (some w) v = Value.text (str py w)

  abbrev pub unwrap : Value → Value
  unwrap (Value.dict fs) = value_text (find (codes "value") fs) (Value.dict fs)
  unwrap v = v

  abbrev pub unwrap_fields : Fields → Row
  unwrap_fields end = []
  unwrap_fields (field k v fs) = (k, unwrap v) ∷ unwrap_fields fs

  -- `_coerce_oracle_row`. What is falsy and no dict is taken for None.
  unfoldable pub coerce_oracle_row : Value → Outcome (Option Row)
  coerce_oracle_row (Value.dict fs) = ok (some (unwrap_fields fs))
  coerce_oracle_row v = if truthy v then raised (codes "no attribute 'items'") else ok none

  -- The items of a list; nothing else that comes from JSON is iterated over here.
  unfoldable pub items_of : Value → Outcome Items
  items_of (Value.list vs) = ok vs
  items_of v = raised (codes "not iterable")

  -- The first entry whose field has the name "after", if there is one.
  unfoldable pub after_entry : Items → Outcome (Option Value)
  unfolding get
  after_entry nil = ok none
  after_entry (cons f fs) = do
    name ← get (codes "field") Value.null f
    later ← after_entry fs
    ok (if is_text (codes "after") name then some f else later)

  abbrev nested_fields : Option Value → Value → Outcome Value
  nested_fields none fields = ok fields
  nested_fields (some entry) fields = get (codes "fields") fields entry

  -- `_TYPE_MAP.get(raw_type, "varchar")`
  abbrev pub known_type : Text → Text
  known_type t = elim (lookup t type_map) [ none ↦ codes "varchar" | some d ↦ d ]

  unfoldable pub raw_type_of : Value → Outcome Text
  raw_type_of (Value.text t) = ok (known_type t)
  raw_type_of (Value.list vs) = raised (codes "unhashable")
  raw_type_of (Value.dict fs) = raised (codes "unhashable")
  raw_type_of v = ok (codes "varchar")

  abbrev pub data_type_of : Text → Value → Outcome Text
  data_type_of logical raw = elim (lookup logical type_map) [
    | none ↦ raw_type_of raw
    | some d ↦ ok d
  ]

  -- `v.strip()`, which only a text has.
  unfoldable pub strip_text : Value → Outcome Text
  strip_text (Value.text t) = ok (strip t)
  strip_text v = raised (codes "no attribute 'strip'")

  abbrev pub texts : Items → List Text
  texts nil = []
  texts (cons v vs) = str py v ∷ texts vs

  abbrev names_of : Fields → List Text
  names_of end = []
  names_of (field k v fs) = k ∷ names_of fs

  -- `set(debezium_schema.get("primaryKey") or [])`: the items of a list by their texts, the
  -- characters of a text or the keys of a dict.
  unfoldable pub key_names : Value → Outcome (List Text)
  key_names (Value.list vs) = ok (texts vs)
  key_names (Value.text t) = ok (map (λ c. c ∷ []) t)
  key_names (Value.dict fs) = ok (names_of fs)
  key_names v = if truthy v then raised (codes "not iterable") else ok []

  abbrev pub cons_column :
      Bool → Outcome ColumnSchema → Outcome (List ColumnSchema) → Outcome (List ColumnSchema)
  cons_column false column later = later
  cons_column true column later = do c ← column; columns ← later; ok (c ∷ columns)

  unfoldable pub parse_column : List Text → Value → Value → Outcome ColumnSchema
  unfolding get strip_text raw_type_of
  parse_column pk name f = do
    raw ← get (codes "type") (Value.text (codes "string")) f
    l ← get (codes "name") Value.null f
    logical ← strip_text (or_value l (Value.text []))
    data_type ← data_type_of logical raw
    optional ← get (codes "optional") (Value.bool true) f
    ok record {
      name = str py name;
      data_type = data_type;
      nullable = truthy optional;
      primary_key = contains (str py name) pk;
    }

  -- The loop over the fields; one without a name is passed over. A name of another kind is taken by
  -- its text, and `optional` by its truth.
  unfoldable pub parse_fields : List Text → Items → Outcome (List ColumnSchema)
  unfolding get parse_column
  parse_fields pk nil = ok []
  parse_fields pk (cons f fs) = do
    name ← get (codes "field") (Value.text []) f
    cons_column (truthy name) (parse_column pk name f) (parse_fields pk fs)

  unfoldable pub parse_schema : Value → Outcome (List ColumnSchema)
  unfolding get items_of after_entry key_names parse_fields
  parse_schema schema = do
    fields ← get (codes "fields") (Value.list nil) schema
    keys ← get (codes "primaryKey") Value.null schema
    pk ← key_names keys
    entries ← items_of fields
    entry ← after_entry entries
    columns ← nested_fields entry fields
    inner ← items_of columns
    parse_fields pk inner
