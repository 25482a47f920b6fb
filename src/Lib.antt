-- ===== src/Lib.antt =====
-- Verification of dremio-cdc: change data capture from databases into Dremio. A source
-- (sources/) yields change events of a table. One worker per table (core/engine.py) takes an
-- initial snapshot, then reads the stream, collects events in batches, masks columns
-- (core/masking.py), writes a batch to a sink (core/dremio_sink.py, core/iceberg_sink.py), saves
-- the position of the batch (core/offset_store.py), tells the source and the status store
-- (core/status_store.py), adapts its batch size, and looks for schema drift against the schema
-- store (core/schema_store.py). A batch that fails is parked in the dead letter queue
-- (core/dlq.py), whose own worker retries it.
--
-- Which file models which part:
--   * Prelude: shared names, tests on numbers, lists, dictionaries, equality, and Python's
--     operations on `str`. A text is a list of code points; letters, digits and white space are
--     those of ASCII.
--   * Event: core/event.py. A value is one of the kinds that the program tells apart.
--   * Masking: core/masking.py, `_apply_fn` and MaskingEngine; Masking/Rows and Masking/Privacy
--     are about rows and about what a mask shows.
--   * Offsets: core/offset_store.py. `OffsetApi` is what the engine asks of a store;
--     Offsets/Sqlite and Offsets/Postgres fill it, and Offsets/Agree compares them with the
--     abstract store.
--   * Schemas: core/schema_store.py.
--   * Dlq: DeadLetterQueue of core/dlq.py; Dlq/Serial is its event format, Dlq/Worker is
--     DLQWorker, Dlq/Worker/Ends its termination.
--   * Status: core/status_store.py.
--   * Engine: core/engine.py. Tuner is AdaptiveBatchTuner. The rest is TableWorker: Worker is
--     its state, Flush is `_flush`, Drift is `_check_schema_drift`, Stream is the streaming loop
--     of `run`, Snapshot is the full snapshot of `run` and `_run_incremental_snapshot`, Cursor
--     is how the latter chooses its column and reads a position, Run is `run`. Wiring is
--     CDCEngine, Wiring/Expected what its configuration asks for, Wiring/Started what it starts.
--     Delivery says what it means that an event is delivered.
--   * Sink: core/dremio_sink.py. Sql is the text of the statements, Server is `_sql` and
--     `_poll`, Dremio is the tables and `write_batch`, over a server that is sent one statement
--     after the other (`render` is their text); Literal reads literals back as SQL does, Order
--     compares upserts and deletions with the changes in their order, and Table is about what
--     `write_table` leaves of a table.
--   * Iceberg: core/iceberg_sink.py. Types is the two maps of types, Write is the writes;
--     Iceberg/Newest is about the rows that a merge appends.
--   * Alerts: AlertManager of core/alert_manager.py; Alerts/Cooldown is about what it sends.
--   * Secrets: core/secrets.py, `resolve` and `walk`.
--   * Sources: the sources. Record is what sources/pubsub.py and sources/datastream.py both do
--     to a row.
--   * Sources/PubSub: sources/pubsub.py. Acks is the pending acknowledgements and
--     `on_batch_committed`, Loop is `stream` inside the worker's loop, as a source of the Engine
--     modules; Acked is about what is acknowledged.
--   * Sources/Datastream: sources/datastream.py. Offset is its positions, Names the order of
--     file names, Stream the listing and `stream`; Resume is about restarts.
--   * Sources/Pgoutput: the replication part of sources/postgres.py. The file itself and Message
--     are the parser, Fanout is which tables the replication thread gives an event to and where
--     it starts, Thread is this thread with its queues and the streams, an action at a time, and
--     Thread/Order, Kept and Streams are about what the streams yield; Wire is the protocol as
--     Postgres documents it, but for the mark of a value that did not change, and Pieces and
--     RoundTrip read it.
--   * Sources/Debezium: sources/debezium.py. The file itself reads JSON and tells DDL events,
--     Schema and Payload are `_convert`, Queue is the HTTP handler and `stream`; Envelope is the
--     layout of an envelope, with the parts of it that the code reads; Columns, Convert and
--     Shared read it.
--   * Sources/Logminer: the parser of sources/oracle.py. The file itself is the lists of values,
--     the keywords and `_parse_val`, Rows is the statements and the turns of `stream`; Values,
--     Statement, Columns and Insert read what Oracle writes for an INSERT; Polls is about the
--     turns of `stream`. The regular expression of `_parse_insert` is taken apart by hand.
--   * Outcome, Samples, and the modules Tests and Sample: results of calls that raise, and test
--     data.
--
-- State and time: a call on the worker takes the worker and gives an outcome and the worker as
-- it is then, so what was changed before a raise stays changed. The sink, the offset store and
-- the source are interfaces with a state of their own. The clock is its readings in order. The
-- stop flag is read from a list that says before each reading whether `stop` was called. What a
-- source yields is a list; a heartbeat is an entry without an event, and the way the generator
-- ends is a parameter. The locks make each call of a store one step. The threads of
-- sources/postgres.py take turns in any order; a put into a full queue changes nothing until
-- there is room, and a table calls `stream` once.
--
-- Fuel: the loop over chunks of an incremental snapshot is bounded by the list of readings of
-- the stop flag: each chunk takes one and holds a row at least, the empty chunk and the check
-- behind the loop take one each. The retry worker is run for a number of passes. `_poll` asks
-- for a job as many times as its deadline allows, and `_sql` makes three attempts. The
-- substitution of variables takes a character at each step, and has the length of the text as
-- fuel. The requests that acknowledge messages take an id each at least, so the number of ids is
-- fuel enough. A stream over files is run for a number of looks at the bucket.
--
-- What the worker relies on in its sink: what is stored stays stored, and a write that returns
-- has stored its batch (`Delivery`). What code outside the repository is assumed to do: JSON
-- reads back what it wrote (`Json`); `fromisoformat` reads what `isoformat` wrote (`Printing`);
-- the query for a chunk, when it does not raise, gives the next rows of a table that does not
-- change, in the order of the cursor, and no two rows have one cursor value, which the first
-- column of a composite key does not promise (`Paged`); the statements on a table succeed,
-- CREATE and ALTER keep its rows, MERGE writes those of its keys and DELETE takes one away
-- (`Obeys`), where no key holds NULL; a query of LogMiner with COMMITTED_DATA_ONLY returns the
-- rows of the transactions that begin and are committed in its range (`Shows`); Pub/Sub gives
-- each message an id of its own (`OwnIds`). UTF-8 (`Utf8`), the JSON of a message (`Decoding`),
-- what `float` reads (`Floats`), the clock and what `fromtimestamp` makes of odd numbers
-- (`Times`, `Millis`), the Pub/Sub service (`Google`) and the bucket at each look (`Bucket`) are
-- parameters without an assumption.
--
-- Numbers: durations and times are whole microseconds. The tuner's products with 0.67 and 1.50
-- are exact fractions rounded down. Its rate, `int(flush_count / flush_duration *
-- batch_timeout)`, is a parameter (`rate` of `Env`), since floats round it.
--
-- Not modelled: the sources other than those five, the connections, schema queries and snapshots
-- of the sources, the thread that extends the deadlines of Pub/Sub, the sort order and the Arrow
-- conversion of the Iceberg sink, the threads, the channels of the alerts, the login of Vault,
-- the web interface, logging, and the Transform Studio trigger, which catches what it raises. A
-- push to the queue is taken to succeed.
pub mod Prelude
pub mod Event
pub mod Masking
pub mod Samples
pub mod Outcome
pub mod Dlq
pub mod Status
pub mod Schemas
pub mod Engine
pub mod Offsets
pub mod Sink
pub mod Secrets
pub mod Sources
pub mod Iceberg
pub mod Alerts
