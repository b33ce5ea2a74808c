-- ===== src/Ingestion.antt =====
-- The ingestion of events into the analytical tables, ingestion/.
pub mod Tables
pub mod Repository
pub mod Worker
pub mod Reviews
pub mod Handlers
pub mod Replay
pub mod Tests
