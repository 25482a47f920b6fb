-- ===== src/Schemas.antt =====
-- core/schema_store.py: the last known columns of each (source, table). The JSON of a schema reads
-- back as the schema, so a row holds the columns.
use dremio_cdc.Prelude.{Option, List, pair_eq, Text}
use dremio_cdc.Prelude.Dict.{Dict, lookup, insert}
use dremio_cdc.Event.{ColumnSchema}

abbrev pub SchemaStore : Type 0
SchemaStore = Dict (Text × Text) (List ColumnSchema)

unfoldable pub get : Text × Text → SchemaStore → Option (List ColumnSchema)
get key st = lookup key st

-- INSERT ... ON CONFLICT DO UPDATE
unfoldable pub set : Text × Text → List ColumnSchema → SchemaStore → SchemaStore
set key schema st = insert key schema st
