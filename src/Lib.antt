-- ===== src/Lib.antt =====
-- ddrive, a drive that keeps encrypted chunks of files on Discord, Telegram or the local disk, and
-- serves them through an API.
--
-- How the parts work together. A client cuts a file into chunks (packages/processing) and uploads
-- each as a blob. The API encrypts at rest what is not encrypted by the client, writes it to a pool
-- of a provider, and keeps rows of blobs and of their placements, the copies of a blob. A read orders
-- the placements and tries one after another; the range-proxy reads and decrypts the chunks that a
-- range covers. The calls of the providers are spread over senders by rate limiters, and requests to
-- the API are limited for each IP. Resolvers keep the tree of folders, the life of files up to the
-- purge, and shares; a middleware says who makes a request.
--
-- Files, with the source that each models:
--   Prelude               names and lemmas that the modules share; tables of the database are lists
--                         of rows, a JavaScript `Map` is a list of entries
--   Database              the tables of packages/database/prisma/schema.prisma (Rows), what it deletes or
--                         clears with a row (Cascades), a chain of asynchronous calls on the tables,
--                         whose writes stay after an error (Actions), and lemmas on keys (Keys, Updates)
--   Processing/Chunker    packages/processing/src/chunker.ts: `chunkFileStream` with its accumulator
--                         and its two loops, `calculateChunkCount`; Split and Count are its proofs
--   Storage/Rows          the rows of packages/database/prisma/schema.prisma and the references of
--                         apps/api/src/storage/provider.ts
--   Storage/Provider      `orderPlacementsForRead`, `placementFromRow`, `placementFromBlobRecord` of
--                         provider.ts; its proofs are in Order
--   Storage/ServerCrypto  apps/api/src/storage/server-crypto.ts; its proofs are in RoundTrip
--   Storage/DiscordBlobs  the senders of apps/api/src/storage/discord-blobs.ts: their groups, the choice of
--                         one and the uploads that each carries; Groups, Tiers and Capacity hold the proofs
--   Handlers/Reading      `readBlobBytes` of apps/api/src/handlers/blob.ts, with the rows that it
--                         marks as MISSING; its proofs are in Outcome
--   Handlers/Stream       apps/api/src/handlers/stream.ts behind the look-up of the file: the chunks in
--                         order, the parsing of the Range header, the assembly of the body and the
--                         answer; Window proves the assembly, Answers the answers
--   Handlers/Blob         the HTTP handlers of apps/api/src/handlers/blob.ts: reading for owners, for
--                         sessions and through shares, and Uploads; Reach and Sharing prove what a share lets
--                         through, Uploading and RoundTrip that an upload is read back
--   Middleware/Auth       apps/api/src/middleware/auth.ts: tokens, device sessions and API keys, with
--                         their caches; Requests has the runs of the process, where the look-ups of requests
--                         that overlap are answered and cached at steps of their own; Caching, Sessions and
--                         Keys hold the proofs
--   Limiter/RoundRobin    the loop by which a sender is chosen, shared by the limiters
--   Limiter/Discord       packages/discord-client/src/rate-limiter.ts, proofs in Budget and Choice
--   Limiter/Telegram      packages/telegram-client/src/rate-limiter.ts and `selectSender` of
--                         apps/api/src/storage/telegram-blobs.ts; Uploads has the step relation of
--                         the uploads that share the limiter, Serial the proof
--   Limiter/Ip            apps/api/src/middleware/rate-limit.ts, proofs in Windows
--   Replication/Worker    apps/api/src/storage/replication-worker.ts, with what others write to the tables
--                         while a call awaits as an argument; its proof is in Outcome
--   Resolvers/Folders     apps/api/src/resolvers/folders.ts for accounts and anonymous sessions: the
--                         two differ by the scope of their queries; Rooted says what a tree is, Moving
--                         and Subfolders are about moves
--   Resolvers/FolderTrees the deletion of a folder of folders.ts with what is below it; Marking and Kept
--                         prove what becomes of the files, Ending that it ends
--   Resolvers/Sharing     apps/api/src/resolvers/sharing.ts, with Managing for making, revoking and
--                         reporting; Opening says what the checks mean, Views is about the limit of views
--                         for accesses that do not overlap, Access about revoked shares and claimed files
--   Resolvers/Accounts    apps/api/src/resolvers/auth.ts: Sessions and Keys for devices and API keys,
--                         Registration up to the login, Passwords for changes and resets, Deletion with
--                         what the database deletes with a user; Registered, Verifying, Migrating, Revoking,
--                         Resetting, Keyed and Deleted hold the proofs
--   Resolvers/Files       apps/api/src/resolvers/files.ts: uploads, commits and listing, with Trash for
--                         purges and sweeps, Anonymous for files without an account, Health for the
--                         results of checks; Committing, Emptying, Isolation, Trash/Called,
--                         Trash/Purged and Trash/Restoring hold the proofs
--   StreamEngine/Download packages/stream-engine/src/download.ts: the engine's maps, a promise as
--                         what it settles to, and events for what happens while it awaits; Maps,
--                         Cache, Assembly, Ranges and Guarantees hold the proofs
--   StreamEngine/Upload   packages/stream-engine/src/upload.ts: one chunk here, with the proof in
--                         Retries; Pool has the workers of `uploadChunks`, with its proofs in Counting,
--                         Starting and Pooling, and Streaming `uploadStream`
--   Tests                 runs on concrete inputs
--
-- How it is modelled. An exception is the value `err` of `Result`; a promise that the code
-- awaits is the value that it settles to; what changes the database takes the table and returns
-- it. `Date.now()` is an argument, in milliseconds, and so are random bytes and identifiers that
-- the database makes up. AES-GCM, base64, SHA-256, argon2, the mailer and the signing and
-- verification of tokens are parameters, with the laws that the documentation gives them; the
-- pools of the providers are a parameter that answers each read as it likes.
--
-- Fuel. The inner loop of the chunker takes a byte at least in each round, so it is given one
-- more than the bytes it reads, and running out counts as a failure. The deletion of a folder
-- recurs on fuel, and ends where folders have ranks. The walk up from a folder may not end on a
-- table with a cycle, as in the code: its fuel is an argument, and on a tree a number of steps
-- above the depth of the target is enough.
--
-- Not modelled: the web client, the HTML pages, mail, the wiring of the server and of GraphQL,
-- scripts and examples, whose work is input and output. The pools that write, the lists and the
-- run of the health check, and the clients of Discord and Telegram are not modelled either. The
-- events of the download engine leave out that a file is registered anew or unregistered while a
-- chunk of it is awaited.
pub mod Database
pub mod Handlers
pub mod Limiter
pub mod Middleware
pub mod Prelude
pub mod Processing
pub mod Replication
pub mod Resolvers
pub mod Storage
pub mod StreamEngine
pub mod Tests
