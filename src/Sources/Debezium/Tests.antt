-- ===== src/Sources/Debezium/Tests.antt =====
-- sources/debezium.py on concrete input: envelopes of two tables of an Oracle database, and the
-- requests that bring them.
use dremio_cdc.Prelude.{
  ℕ, ◌≡◌, ◌++◌, refl, false, true, Option, none, some, List, [], ◌∷◌, Text, Text-discrete,
}
use dremio_cdc.Prelude.Int.{pos}
use dremio_cdc.Prelude.Chars.{codes}
use dremio_cdc.Event.{Value, field, end, Operation}
use dremio_cdc.Outcome.{ok}
use dremio_cdc.Samples.{plain}
use dremio_cdc.Sources.Debezium.Payload.{Millis}
use dremio_cdc.Sources.Debezium.Queue.{crashes, take_one, post_all, post_all-accepted}
use dremio_cdc.Sources.Debezium.Envelope.{Envelope, encode}
use dremio_cdc.Sources.Debezium.Convert.{event_of}

abbrev millis : Millis plain
millis = record { other = λ v. ok 0 }

abbrev orders : Envelope
orders = record {
  op = Operation.update;
  before = none;
  after = some ((codes "ID", Value.int (pos 7)) ∷ []);
  connector = codes "oracle";
  database = codes "ORCL";
  namespace = codes "SHOP";
  table = codes "ORDERS";
  ts_ms = 12;
  columns =
      record {
        name = codes "ID";
        raw_type = codes "bytes";
        logical = some (codes "org.apache.kafka.connect.data.Decimal");
        optional = false;
      }
      ∷ [];
  scn = Value.text (codes "4711");
  lsn = Value.null;
  commit_lsn = Value.null;
  gtid = Value.null;
}

column_type :
    (event_of plain millis (codes "ora") orders).schema
    ≡ record {
      name = codes "ID";
      data_type = codes "numeric";
      nullable = false;
      primary_key = false;
    }
      ∷ []
unfolding Text-discrete
column_type = refl

table_name : (event_of plain millis (codes "ora") orders).source_table ≡ codes "SHOP.ORDERS"
unfolding Text-discrete
table_name = refl

-- A body with a null payload ends the generator.
null_payload :
    take_one plain millis
      (codes "ora")
      (codes "orders")
      (Value.dict (field (codes "payload") Value.null end) ∷ [])
    ≡ (crashes (codes "argument is not iterable"), [])
unfolding take_one Text-discrete
null_payload = refl

post_all-accepted_example : (post_all (none ∷ some (encode orders) ∷ []) []).1 ≡ encode orders ∷ []
unfolding post_all
post_all-accepted_example = (post_all-accepted (none ∷ some (encode orders) ∷ []) []).0
