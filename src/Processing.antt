-- ===== src/Processing.antt =====
-- packages/processing/src: cutting a byte stream into chunks.
pub mod Chunker
