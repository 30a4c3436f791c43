-- ===== src/Database.antt =====
-- The tables of packages/database/prisma/schema.prisma that the resolvers and handlers of apps/api
-- share, and the calls of a resolver: the rows afterwards, and a value or the message of an error.
-- `updatedAt` of a file is set by each update of its row; of a folder it is left out.
pub mod Actions
pub mod Rows
pub mod Cascades
pub mod Keys
pub mod Updates
