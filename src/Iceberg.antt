-- ===== src/Iceberg.antt =====
-- core/iceberg_sink.py: the sink that writes Iceberg tables through a catalog.
pub mod Types
pub mod Newest
pub mod Write
mod Tests
use dremio_cdc.Prelude.{
  ℕ, Bool, true, false, not, ◌&&◌, ◌||◌, Option, none, some, List, [], ◌∷◌, ◌++◌, map, keep, Text,
  text_eq, contains, if◌then◌else◌,
}
use mathlib.Core.List.{reverse}
use dremio_cdc.Prelude.Chars.{codes, lower, replace, strip_prefix}
use dremio_cdc.Prelude.Dict.{Dict, lookup, insert}
use dremio_cdc.Event.{
  Value, Row, ColumnSchema, ChangeEvent, Printing, row, primary_keys, is_upsert, values_eq,
}
use dremio_cdc.Outcome.{Outcome, ok, raised}
use dremio_cdc.Dlq.Serial.{op_value}
use dremio_cdc.Sink.Dremio.{key_at, group}

-- `_CDC_META`
abbrev pub meta : Text → Text → ColumnSchema
meta name type = record { name = name; data_type = type; nullable = true; primary_key = false }

abbrev pub cdc_meta : List ColumnSchema
cdc_meta =
    meta (codes "_cdc_op") (codes "varchar")
    ∷ meta (codes "_cdc_source") (codes "varchar")
    ∷ meta (codes "_cdc_ts") (codes "timestamp")
    ∷ meta (codes "_cdc_ingest_ts") (codes "timestamp")
    ∷ []

abbrev is_prefix : Text → Text → Bool
is_prefix p s = elim (strip_prefix p s) [ none ↦ false | some r ↦ true ]

-- `marker in uri`
unfoldable pub within : Text → Text → Bool
within marker [] = is_prefix marker []
within marker (c ∷ s) = let rest = within marker s in is_prefix marker (c ∷ s) || rest

unfoldable pub is_dremio_open_catalog : Text → Bool
unfolding within
is_dremio_open_catalog uri =
    within (codes "catalog.dremio.cloud") uri
    || (within (codes "/api/catalog") uri || within (codes "/api/iceberg") uri)

unfoldable pub safe_name : Text → Text
safe_name source_table = lower (replace b'-' (codes "_") (replace b'.' (codes "_") source_table))

unfoldable pub table_identifier : Text → Text → Text
unfolding safe_name
table_identifier namespace source_table = namespace ++ (b'.' ∷ safe_name source_table)

unfoldable pub dremio_table_path : Text → Text → Text
unfolding safe_name
dremio_table_path namespace source_table =
    b'"' ∷ (namespace ++ (codes "\".\"" ++ (safe_name source_table ++ codes "\"")))

-- What the sink calls of a catalog: tables by their identifiers. `conditions` of a delete are equal
-- columns, all of which must hold. `refresh` is the call of Dremio, which raises nothing.
pub record Catalog : Type 1 where
  pub State : Type 0
  pub create_table : Text → List ColumnSchema → State → Outcome (Unit {0}) × State
  pub load_table : Text → State → Outcome (List Text) × State
  pub add_columns : Text → List ColumnSchema → State → Outcome (Unit {0}) × State
  pub delete : Text → List (Text × Value) → State → Outcome (Unit {0}) × State
  pub append : Text → List Row → State → Outcome (Unit {0}) × State
  pub refresh : Text → State → State

pub data WriteMode : Type 0 where
  append merge : WriteMode

abbrev pub or_empty : Option Row → Row
or_empty none = []
or_empty (some r) = r

abbrev pub instant : Option ℕ → Value
instant none = Value.null
instant (some t) = Value.datetime t

-- `_enrich`, at the time `now`.
unfoldable pub enrich : ℕ → ChangeEvent → Row
unfolding row op_value
enrich now ev = insert (codes "_cdc_ingest_ts") (Value.datetime now) (
    insert (codes "_cdc_ts") (instant ev.timestamp) (
      insert (codes "_cdc_source") (Value.text ev.source_name)
        (insert (codes "_cdc_op") (Value.text (op_value ev.op)) (or_empty (row ev)))))

-- `ev.before or ev.after`, and `if row`: an empty dict is falsy.
abbrev pub some_row : Option Row → List Row
some_row none = []
some_row (some []) = []
some_row (some (c ∷ cs)) = (c ∷ cs) ∷ []

abbrev pub first_row : List Row → List Row → List Row
first_row [] second = second
first_row (r ∷ rs) second = r ∷ []

unfoldable pub old_rows : List ChangeEvent → List Row
old_rows [] = []
old_rows (ev ∷ evs) = first_row (some_row ev.before) (some_row ev.after) ++ old_rows evs

unfoldable pub rows_to_delete : List ChangeEvent → List Row
unfolding old_rows
rows_to_delete events =
    old_rows (keep (λ e. not (is_upsert e)) events) ++ old_rows (keep is_upsert events)

-- `[EqualTo(pk, row[pk]) for pk in pks if pk in row]`
unfoldable pub conditions : List Text → Row → List (Text × Value)
conditions [] r = []
conditions (pk ∷ pks) r = elim (lookup pk r) [
  | none ↦ conditions pks r
  | some v ↦ (pk, v) ∷ conditions pks r
]

abbrev pub place :
    List Text
    → ChangeEvent
    → Option Row
    → List (List Value)
    → (List (List Value) → List ChangeEvent)
    → List ChangeEvent
place pks ev none seen rest = rest seen
place pks ev (some r) seen rest =
    if contains (key_at pks r) seen then rest seen else ev ∷ rest (key_at pks r ∷ seen)

-- The loop over `reversed(upserts)`: the newest event of each key that is not yet seen.
unfoldable pub newest : List Text → List ChangeEvent → List (List Value) → List ChangeEvent
newest pks [] seen = []
newest pks (ev ∷ evs) seen = place pks ev ev.after seen (newest pks evs)
