-- ===== src/Tests.antt =====
-- Runs of the definitions on concrete inputs, and the theorems at inputs that meet their conditions.
mod Fixtures
mod Database
mod Auth
mod Sharing
mod Files
mod Blob
mod Chunker
mod Storage
mod Stream
mod Download
mod Upload
mod Limiter
mod Resolvers
mod Replication
mod Accounts
mod DiscordBlobs
