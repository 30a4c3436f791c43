-- ===== src/Handlers.antt =====
-- apps/api/src/handlers: reading a blob from its copies, the handlers of blobs, and the range-proxy stream.
pub mod Reading
pub mod Stream
pub mod Blob
