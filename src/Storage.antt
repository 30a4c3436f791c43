-- ===== src/Storage.antt =====
-- apps/api/src/storage: the rows of blobs and placements, the order in which copies are read, the
-- choice of the pool for an upload, and encryption at rest.
pub mod Rows
pub mod Provider
pub mod ServerCrypto
pub mod DiscordBlobs
