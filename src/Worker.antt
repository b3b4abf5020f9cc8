-- ===== src/Worker.antt =====
-- agent-observability/worker/worker.py: from the events of the stream to rows of the tables.
pub mod Convert
pub mod Rows
pub mod Upsert
pub mod Apply
pub mod Stream
