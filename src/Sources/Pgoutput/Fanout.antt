-- ===== src/Sources/Pgoutput/Fanout.antt =====
-- sources/postgres.py: the tables whose queues the replication thread puts an event into, and the
-- place from which it starts.
use dremio_cdc.Prelude.{
  Bool, ◌||◌, Option, none, some, List, [], ◌∷◌, keep, Text, text_eq, contains, if◌then◌else◌,
}
use dremio_cdc.Prelude.Chars.{codes, strip_prefix, ends_with}
use dremio_cdc.Event.{Value, Printing, str, truthy}

-- `ev.source_table.endswith(f".{tbl_key}") or tbl_key.endswith(f".{ev.source_table}")`
unfoldable pub short_match : Text → Text → Bool
short_match table key = ends_with (b'.' ∷ key) table || ends_with (b'.' ∷ table) key

-- The tables that get an event of the table, of those that have a queue: the table itself, or every
-- one that its name matches in short.
unfoldable pub targets : Text → List Text → List Text
unfolding short_match
targets table keys = if contains table keys then table ∷ [] else keep (short_match table) keys

-- `start_lsn`: the place that was saved, but for a mark of the snapshot.
module _ (py : Printing) where
  abbrev pub unless_snapshot : Value → Option Text → Value
  unless_snapshot offset none = offset
  unless_snapshot offset (some rest) = Value.text (codes "0/0")

  unfoldable pub start_lsn : Value → Value
  start_lsn offset =
      if truthy offset
      then unless_snapshot offset (strip_prefix (codes "snap:") (str py offset))
      else Value.text (codes "0/0")
