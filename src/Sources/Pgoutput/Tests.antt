-- ===== src/Sources/Pgoutput/Tests.antt =====
-- sources/postgres.py on the messages of one table, `public.people`, with the columns id and ssn.
use dremio_cdc.Prelude.{
  ◌≡◌, refl, Bool, true, false, Option, none, some, List, [], ◌∷◌, ◌++◌, Text, text_eq, arith, keep,
  ◌≢◌, ℕ, map, take, length,
}
use dremio_cdc.Prelude.Chars.{codes}
use dremio_cdc.Event.{Value, ColumnSchema, ChangeEvent, Row}
use dremio_cdc.Outcome.{Outcome, ok, raised}
use dremio_cdc.Samples.{plain}
use dremio_cdc.Sources.Pgoutput.{Utf8, Relation, Relations}
use dremio_cdc.Sources.Pgoutput.Wire.{
  be16, be32, Cell, Column, Description, DescriptionFits, Old, Change, encode_description,
  encode_change, relation_of,
}
use dremio_cdc.Sources.Pgoutput.Message.{parse_message}
use dremio_cdc.Sources.Pgoutput.RoundTrip.{
  event_of, parse_message-description, parse_message-change,
}
use dremio_cdc.Sources.Pgoutput.Fanout.{targets, start_lsn}
use dremio_cdc.Sources.Pgoutput.Thread.{Message, Thread, Action, fresh, queue_of, run}

-- Every byte is a character.
abbrev ascii : Utf8
ascii = record { decode = λ bs. ok bs; decode_replace = λ bs. bs }

abbrev column : Bool → Text → ℕ → Column
column key name oid = record {
  key = key;
  raw = name;
  name = name;
  oid = oid;
  modifier = 4294967295;
}

abbrev people : Description
people = record {
  id = 16385;
  raw_namespace = codes "public";
  namespace = codes "public";
  raw_name = codes "people";
  name = codes "people";
  identity = b'd';
  columns = column true (codes "id") 20 ∷ column false (codes "ssn") 1043 ∷ [];
}

people-DescriptionFits : DescriptionFits ascii people
people-DescriptionFits = record {
  id_fits = omega arith;
  namespace_fits = (refl, omega arith);
  name_fits = (refl, omega arith);
  count_fits = omega arith;
  columns_fit = (((refl, omega arith), omega arith), (((refl, omega arith), omega arith), tt));
}

parse_message-description_example :
    parse_message ascii (codes "pg") 7 (encode_description people) []
    ≡ (ok [], (16385, relation_of people) ∷ [])
parse_message-description_example =
    parse_message-description ascii (codes "pg") 7 people [] people-DescriptionFits

-- An update that sends the old key, a new value and NULL.
abbrev changed : Change
changed =
    Change.update (some (Old.key (Cell.text (codes "7") ∷ Cell.null ∷ [])))
      (Cell.text (codes "8") ∷ Cell.null ∷ [])

names_differ : ◌≢◌ {A = Text} (codes "id") (codes "ssn")
names_differ e = cc

parse_message-change_example :
    parse_message ascii
      (codes "pg")
      7
      (encode_change 16385 changed)
      ((16385, relation_of people) ∷ [])
    ≡ (
      ok (event_of ascii (codes "pg") 7 (relation_of people) changed ∷ []),
      (16385, relation_of people) ∷ [],
    )
parse_message-change_example =
    parse_message-change ascii (codes "pg") 7 16385 (relation_of people) changed
      ((16385, relation_of people) ∷ []) (omega arith) refl ((names_differ, tt), (tt, tt))
      ((refl, omega arith, (omega arith, (tt, tt))), (refl, omega arith, (omega arith, (tt, tt))))

-- An update whose second value did not change, and is not sent.
abbrev kept_second : List ℕ
kept_second =
    b'U' ∷ (be32 16385 ++ (b'N' ∷ (be16 2 ++ (b't' ∷ (be32 1 ++ (codes "8" ++ (b'u' ∷ [])))))))

abbrev afters : Outcome (List ChangeEvent) → List (Option Row)
afters (ok events) = map (λ ev. ev.after) events
afters (raised message) = []

-- The value that did not change is NULL in the event.
unchanged_becomes_null :
    afters (parse_message ascii (codes "pg") 7 kept_second ((16385, relation_of people) ∷ [])).0
    ≡ some ((codes "id", Value.text (codes "8")) ∷ (codes "ssn", Value.null) ∷ []) ∷ []
unfolding parse_message dremio_cdc.Sources.Pgoutput.Message.parse_update
    dremio_cdc.Sources.Pgoutput.u32 dremio_cdc.Sources.Pgoutput.Message.old_tuple
    dremio_cdc.Sources.Pgoutput.decode_tuple dremio_cdc.Sources.Pgoutput.u16
    dremio_cdc.Sources.Pgoutput.decode_fields dremio_cdc.Sources.Pgoutput.decode_value
    dremio_cdc.Sources.Pgoutput.Message.change dremio_cdc.Prelude.Text-discrete
unchanged_becomes_null = refl

own_queue :
    targets (codes "public.people") (codes "people" ∷ codes "public.people" ∷ [])
    ≡ codes "public.people" ∷ []
unfolding targets dremio_cdc.Prelude.Text-discrete
own_queue = refl

short_name_matches :
    targets (codes "public.people") (codes "people" ∷ codes "orders" ∷ []) ≡ codes "people" ∷ []
unfolding targets dremio_cdc.Prelude.Text-discrete
short_name_matches = refl

snapshot_mark_starts_over :
    start_lsn plain (Value.text (codes "snap:done")) ≡ Value.text (codes "0/0")
unfolding start_lsn dremio_cdc.Event.truthy dremio_cdc.Event.str
snapshot_mark_starts_over = refl

abbrev message : List ℕ → ℕ → Action
message payload start = Action.message record { payload = payload; data_start = start; now = 7 }

-- A table registers, its description comes and an update of it, and the stream takes.
abbrev actions : List Action
actions =
    Action.registers (codes "people")
    ∷ message (encode_description people) 100
    ∷ Action.advances
    ∷ message (encode_change 16385 changed) 200
    ∷ Action.advances
    ∷ Action.advances
    ∷ Action.advances
    ∷ Action.advances
    ∷ Action.takes (codes "people")
    ∷ []

-- The server is told that all is flushed, while the event waits in its queue.
confirmed_while_queued :
    let s = run ascii (codes "pg") (take 8 actions) fresh in
    (s.confirmed ≡ some 200) × (length (queue_of (codes "people") s.queues) ≡ 1)
unfolding run parse_message dremio_cdc.Sources.Pgoutput.Thread.act
    dremio_cdc.Sources.Pgoutput.read_relation dremio_cdc.Sources.Pgoutput.u32
    dremio_cdc.Sources.Pgoutput.c_string dremio_cdc.Sources.Pgoutput.until_zero
    dremio_cdc.Sources.Pgoutput.u16 dremio_cdc.Sources.Pgoutput.parse_columns
    dremio_cdc.Sources.Pgoutput.parse_column dremio_cdc.Sources.Pgoutput.Message.parse_update
    dremio_cdc.Sources.Pgoutput.Message.old_tuple dremio_cdc.Sources.Pgoutput.decode_tuple
    dremio_cdc.Sources.Pgoutput.decode_fields dremio_cdc.Sources.Pgoutput.decode_value
    dremio_cdc.Prelude.Text-discrete dremio_cdc.Sources.Pgoutput.Message.change
    dremio_cdc.Sources.Pgoutput.table_of
confirmed_while_queued = (refl, refl)

then_yielded : map (λ p. p.0) (run ascii (codes "pg") actions fresh).yielded ≡ codes "people" ∷ []
unfolding run parse_message dremio_cdc.Sources.Pgoutput.Thread.act
    dremio_cdc.Sources.Pgoutput.read_relation dremio_cdc.Sources.Pgoutput.u32
    dremio_cdc.Sources.Pgoutput.c_string dremio_cdc.Sources.Pgoutput.until_zero
    dremio_cdc.Sources.Pgoutput.u16 dremio_cdc.Sources.Pgoutput.parse_columns
    dremio_cdc.Sources.Pgoutput.parse_column dremio_cdc.Sources.Pgoutput.Message.parse_update
    dremio_cdc.Sources.Pgoutput.Message.old_tuple dremio_cdc.Sources.Pgoutput.decode_tuple
    dremio_cdc.Sources.Pgoutput.decode_fields dremio_cdc.Sources.Pgoutput.decode_value
    dremio_cdc.Prelude.Text-discrete dremio_cdc.Sources.Pgoutput.Message.change
    dremio_cdc.Sources.Pgoutput.table_of
then_yielded = refl
