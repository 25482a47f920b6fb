-- ===== src/Engine.antt =====
-- core/engine.py: the worker of one table, and what it is made of.
pub mod Tuner
pub mod Worker
pub mod Drift
pub mod Delivery
pub mod Flush
pub mod Stream
pub mod Cursor
pub mod Snapshot
pub mod Run
pub mod Wiring
pub mod Restart
pub mod Sample
mod Tests
