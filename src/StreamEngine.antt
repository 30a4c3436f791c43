-- ===== src/StreamEngine.antt =====
-- packages/stream-engine: the engines for downloads and uploads of encrypted chunks.
pub mod Download
pub mod Upload
