-- ===== src/Engine/Cursor.antt =====
-- The cursor of an incremental snapshot: `get_pk_column` of sources/base.py, and how
-- `_run_incremental_snapshot` of core/engine.py chooses the column and reads a saved position.
use dremio_cdc.Prelude.{Option, none, some, List, [], ◌∷◌, ◌++◌, Text, text_eq, if◌then◌else◌}
use dremio_cdc.Prelude.Chars.{codes, lower, split_at_most}
use dremio_cdc.Prelude.Dict.{Dict, lookup, insert}
use dremio_cdc.Event.{ColumnSchema}
use dremio_cdc.Outcome.{Outcome, ok, raised}

abbrev pub first_name : List ColumnSchema → Option Text
first_name [] = none
first_name (c ∷ cs) = some c.name

abbrev pub first_key : List ColumnSchema → Option Text → Option Text
first_key [] default = default
first_key (c ∷ cs) default = if c.primary_key then some c.name else first_key cs default

unfoldable pub get_pk_column : Outcome (List ColumnSchema) → Option Text
get_pk_column (ok schema) = first_key schema (first_name schema)
get_pk_column (raised message) = none

-- `{c.name.lower(): c.name for c in schema}`
abbrev pub col_name_map : List ColumnSchema → Dict Text Text → Dict Text Text
col_name_map [] m = m
col_name_map (c ∷ cs) m = col_name_map cs (insert (lower c.name) c.name m)

-- `if canonical`: an empty name counts as none.
abbrev pub truthy : Option Text → Option Text
truthy none = none
truthy (some []) = none
truthy (some (c ∷ s)) = some (c ∷ s)

unfoldable pub canonical : Text → List ColumnSchema → Option Text
canonical col schema = truthy (lookup (lower col) (col_name_map schema []))

-- `canonical`, or the default when there is no such column or no schema.
unfoldable pub find_column : Text → Outcome (List ColumnSchema) → Option Text → Option Text
unfolding canonical
find_column col (raised message) default = default
find_column col (ok schema) default = elim (canonical col schema) [
  | none ↦ default
  | some c ↦ some c
]

-- The configured column if the table has it, else the key; `if not cursor_col` ends in `none`.
unfoldable pub cursor_column : Option Text → Outcome (List ColumnSchema) → Option Text
unfolding find_column get_pk_column
cursor_column none schema = truthy (get_pk_column schema)
cursor_column (some col) schema = truthy (find_column col schema (get_pk_column schema))

abbrev pub or_default : Text → Option Text → Text
or_default default none = default
or_default default (some c) = c

abbrev pub resume_parts : List Text → Text → Outcome (List ColumnSchema) → Text × Option Text
resume_parts (tag ∷ col ∷ val ∷ []) cursor schema =
    (or_default cursor (find_column col schema (some cursor)), some val)
resume_parts _ cursor schema = (cursor, none)

-- The column and the value to go on after, from a saved "snap:{col}:{val}".
unfoldable pub resume : Option Text → Text → Outcome (List ColumnSchema) → Text × Option Text
unfolding split_at_most find_column
resume none cursor schema = (cursor, none)
resume (some []) cursor schema = (cursor, none)
resume (some (c ∷ s)) cursor schema = resume_parts (split_at_most b':' 2 (c ∷ s)) cursor schema

-- `f"snap:{cursor_col}:{last_val}"`
unfoldable pub snap_position : Text → Text → Text
snap_position col val = codes "snap:" ++ (col ++ (b':' ∷ val))
