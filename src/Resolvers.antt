-- ===== src/Resolvers.antt =====
-- apps/api/src/resolvers: folders, files, shares and accounts.
pub mod Folders
pub mod Sharing
pub mod Files
pub mod Accounts
pub mod FolderTrees
