-- ===== src/Replication.antt =====
-- apps/api/src/storage/replication-worker.ts: copies of blobs that are made in the background.
pub mod Worker
