-- ===== src/Sources/Pgoutput/RoundTrip.antt =====
-- The parser of sources/postgres.py reads the messages of the protocol.
use dremio_cdc.Prelude.{ℕ, ◌<◌, ◌≡◌, Option, none, some, List, [], ◌∷◌, ◌++◌, Text, text_eq, nat_eq}
use dremio_cdc.Prelude.Dict.{lookup, insert}
use dremio_cdc.Event.{Value, ChangeEvent, Operation, Row}
use dremio_cdc.Outcome.{ok, ◌>>=◌}
use dremio_cdc.Sources.Pgoutput.{Utf8, Relation, Relations, byte, table_of}
use dremio_cdc.Sources.Pgoutput.Message.{
  change, old_tuple, parse_insert, parse_update, parse_delete, parse_message,
}
use dremio_cdc.Sources.Pgoutput.Wire.{
  be32, Cell, encode_tuple, Description, encode_description, relation_of, DescriptionFits, Old,
  Change, old_cells, encode_old, encode_before, encode_change, TupleFits, BeforeFits, ChangeFits,
  Distinct, row_of, old_row,
}
use dremio_cdc.Sources.Pgoutput.Pieces.{
  u32-be32, read_relation-body, decode_tuple-encoded, decode_tuple_last,
}

module _ (utf : Utf8) where
  module _ (source_name : Text) (now : ℕ) where
    abbrev event_with : Relation → Operation → Option Row → Option Row → ChangeEvent
    event_with rel op before after = record {
      op = op;
      source_name = source_name;
      source_table = rel.namespace ++ (b'.' ∷ rel.name);
      before = before;
      after = after;
      schema = rel.columns;
      timestamp = some now;
      offset = Value.null;
      tx_id = none;
    }

    abbrev pub event_of : Relation → Change → ChangeEvent
    event_of rel (Change.insert cells) =
        event_with rel Operation.insert none (some (row_of utf rel.columns cells))
    event_of rel (Change.update before cells) =
        event_with rel Operation.update (old_row utf rel.columns before)
          (some (row_of utf rel.columns cells))
    event_of rel (Change.delete old) =
        event_with rel Operation.delete (some (row_of utf rel.columns (old_cells old))) none

    -- Postgres describes a relation before its first change. The description is read whole: from
    -- then on its id stands for its schema, name and columns, in place of what it stood for before,
    -- and no event is made.
    pub parse_message-description :
        (r : Description) (rels : Relations)
        → DescriptionFits utf r
        → parse_message utf source_name now (encode_description r) rels
          ≡ (ok [], insert r.id (relation_of r) rels)
    unfolding parse_message
    parse_message-description r rels h = rw (read_relation-body utf r h)

    parse_delete-encoded :
        (id : ℕ) (rel : Relation) (old : Old) (rels : Relations)
        → id < 4294967296
        → lookup id rels ≡ some rel
        → Distinct rel.columns
        → TupleFits rel.columns (old_cells old)
        → parse_delete utf source_name now (be32 id ++ encode_old old) rels
          ≡ ok (event_of rel (Change.delete old))
    unfolding parse_delete change table_of
    parse_delete-encoded id rel (Old.key cells) rels hid e d h =
        rw (u32-be32 id (b'K' ∷ encode_tuple cells) hid, ◌>>=◌)
          (rw e (rw (decode_tuple_last utf rel.columns cells d h, ◌>>=◌)))
    parse_delete-encoded id rel (Old.full cells) rels hid e d h =
        rw (u32-be32 id (b'O' ∷ encode_tuple cells) hid, ◌>>=◌)
          (rw e (rw (decode_tuple_last utf rel.columns cells d h, ◌>>=◌)))

    parse_update-encoded :
        (id : ℕ) (rel : Relation) (before : Option Old) (cells : List Cell) (rels : Relations)
        → id < 4294967296
        → lookup id rels ≡ some rel
        → Distinct rel.columns
        → BeforeFits rel.columns before
        → TupleFits rel.columns cells
        → parse_update utf source_name now
            (be32 id ++ encode_before before (b'N' ∷ encode_tuple cells))
            rels
          ≡ ok (event_of rel (Change.update before cells))
    unfolding parse_update byte old_tuple change table_of
    parse_update-encoded id rel none cells rels hid e d hb h =
        rw (u32-be32 id (encode_before none (b'N' ∷ encode_tuple cells)) hid, ◌>>=◌)
          (rw e (rw (decode_tuple_last utf rel.columns cells d h, ◌>>=◌)))
    parse_update-encoded id rel (some (Old.key olds)) cells rels hid e d hb h =
        rw
          (u32-be32 id (encode_before (some (Old.key olds)) (b'N' ∷ encode_tuple cells)) hid, ◌>>=◌)
          (rw e (
            rw (decode_tuple-encoded utf rel.columns olds (b'N' ∷ encode_tuple cells) d hb, ◌>>=◌)
              (rw (decode_tuple_last utf rel.columns cells d h, ◌>>=◌))))
    parse_update-encoded id rel (some (Old.full olds)) cells rels hid e d hb h =
        rw
          (
            u32-be32 id (encode_before (some (Old.full olds)) (b'N' ∷ encode_tuple cells)) hid,
            ◌>>=◌,
          )
          (rw e (
            rw (decode_tuple-encoded utf rel.columns olds (b'N' ∷ encode_tuple cells) d hb, ◌>>=◌)
              (rw (decode_tuple_last utf rel.columns cells d h, ◌>>=◌))))

    -- A change of a relation that was described, whose columns have different names, and that sends
    -- a text or NULL for each column of each of its rows, is read as one event of its table: an
    -- insertion, an update with the old row or key if it was sent, or a deletion, each row with the
    -- value of every column under its name. The descriptions stay.
    pub parse_message-change :
        (id : ℕ) (rel : Relation) (c : Change) (rels : Relations)
        → id < 4294967296
        → lookup id rels ≡ some rel
        → Distinct rel.columns
        → ChangeFits rel.columns c
        → parse_message utf source_name now (encode_change id c) rels
          ≡ (ok (event_of rel c ∷ []), rels)
    unfolding parse_message parse_insert change table_of
    parse_message-change id rel (Change.insert cells) rels hid e d h =
        rw (u32-be32 id (b'N' ∷ encode_tuple cells) hid, ◌>>=◌)
          (rw e (rw (decode_tuple_last utf rel.columns cells d h, ◌>>=◌)))
    parse_message-change id rel (Change.update before cells) rels hid e d h =
        rw (parse_update-encoded id rel before cells rels hid e d h.0 h.1)
    parse_message-change id rel (Change.delete old) rels hid e d h =
        rw (parse_delete-encoded id rel old rels hid e d h)
