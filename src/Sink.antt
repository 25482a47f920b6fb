-- ===== src/Sink.antt =====
-- core/dremio_sink.py: the sink that writes through Dremio's SQL API.
pub mod Sql
pub mod Server
pub mod Dremio
pub mod Literal
pub mod Order
pub mod Table
mod Tests
