-- ===== src/Sources/Pgoutput/Message.antt =====
-- `_parse_message` of sources/postgres.py, and the handlers of its kinds of messages. `now` is the
-- reading of the clock for the event of the message.
use dremio_cdc.Prelude.{
  ℕ, ◌||◌, Option, none, some, List, [], ◌∷◌, Text, nat_eq, drop, ◌=ℕ◌, if◌then◌else◌,
}
use dremio_cdc.Prelude.Dict.{lookup, insert}
use dremio_cdc.Event.{Value, Operation, ColumnSchema, ChangeEvent, Row}
use dremio_cdc.Outcome.{Outcome, ok, raised, ◌>>=◌}
use dremio_cdc.Sources.Pgoutput.{
  Bytes, Utf8, Relation, Relations, table_of, columns_of, byte, u32, read_relation, decode_tuple,
}

module _ (utf : Utf8) (source_name : Text) (now : ℕ) where
  unfoldable pub change : Operation → Option Relation → Option Row → Option Row → ChangeEvent
  change op rel before after = record {
    op = op;
    source_name = source_name;
    source_table = table_of rel;
    before = before;
    after = after;
    schema = columns_of rel;
    timestamp = some now;
    offset = Value.null;
    tx_id = none;
  }

  unfoldable pub parse_insert : Bytes → Relations → Outcome ChangeEvent
  parse_insert bs rels = do
    id ← u32 bs
    let rel = lookup id.0 rels
    after ← decode_tuple utf (columns_of rel) (drop 1 id.1)
    ok (change Operation.insert rel none (some after.0))

  -- The old row, when the message begins with the key or the old tuple; its end is behind the 'N'.
  unfoldable pub old_tuple : ℕ → List ColumnSchema → Bytes → Outcome (Option Row × Bytes)
  old_tuple kind columns bs =
      if kind =ℕ b'K' || kind =ℕ b'O'
      then decode_tuple utf columns bs >>= (λ before. ok (some before.0, drop 1 before.1))
      else ok (none, bs)

  unfoldable pub parse_update : Bytes → Relations → Outcome ChangeEvent
  unfolding byte
  parse_update bs rels = do
    id ← u32 bs
    let rel = lookup id.0 rels
    kind ← byte id.1
    before ← old_tuple kind.0 (columns_of rel) kind.1
    after ← decode_tuple utf (columns_of rel) before.1
    ok (change Operation.update rel before.0 (some after.0))

  unfoldable pub parse_delete : Bytes → Relations → Outcome ChangeEvent
  parse_delete bs rels = do
    id ← u32 bs
    let rel = lookup id.0 rels
    before ← decode_tuple utf (columns_of rel) (drop 1 id.1)
    ok (change Operation.delete rel (some before.0) none)

  abbrev pub one_event : Outcome ChangeEvent → Outcome (List ChangeEvent)
  one_event (ok ev) = ok (ev ∷ [])
  one_event (raised message) = raised message

  -- `_parse_relation` keeps the relation when the whole message was read.
  abbrev pub keep_relation :
      Outcome (ℕ × Relation) → Relations → Outcome (List ChangeEvent) × Relations
  keep_relation (ok (id, rel)) rels = (ok [], insert id rel rels)
  keep_relation (raised message) rels = (raised message, rels)

  unfoldable pub parse_message : Bytes → Relations → Outcome (List ChangeEvent) × Relations
  parse_message [] rels = (ok [], rels)
  parse_message (kind ∷ bs) rels =
      if kind =ℕ b'R'
      then keep_relation (read_relation utf bs) rels
      else if kind =ℕ b'I'
      then (one_event (parse_insert bs rels), rels)
      else if kind =ℕ b'U'
      then (one_event (parse_update bs rels), rels)
      else if kind =ℕ b'D'
      then (one_event (parse_delete bs rels), rels)
      else (ok [], rels)
