-- ===== src/Sources.antt =====
-- The connectors of sources/: how each one reads changes, and where it starts again.
pub mod Record
pub mod Pgoutput
pub mod Datastream
pub mod PubSub
pub mod Debezium
pub mod Logminer
