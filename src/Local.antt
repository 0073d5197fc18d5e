-- ===== src/Local.antt =====
-- queue_local.go: the in-memory queue of the sync and workerpool drivers.
pub mod Retry
pub mod Queue
mod Tests
