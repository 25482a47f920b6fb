-- ===== src/Sources/Debezium/Shared.antt =====
-- What a stream of sources/debezium.py takes from the queue that all tables of a source share.
use dremio_cdc.Prelude.{text_eq}
use dremio_cdc.Sources.Debezium.Envelope.{Envelope}
