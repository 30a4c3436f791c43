-- ===== src/Database/Cascades.antt =====
-- packages/database/prisma/schema.prisma: what the database deletes or clears with a row.
use ddrive.Prelude.{
  ℕ, Bool, List, Option, none, some, String, str_eq, if◌then◌else◌, any, map, filter,
}
use ddrive.Prelude.Tables.{update_many, delete_many}
use ddrive.Storage.Rows.{Transport, Placement}
use ddrive.Resolvers.Folders.{Folder, opt_eq}
use ddrive.Database.Rows.{File, stamped, Share, ShareReport, Db}

-- `{ in: ids }`.
abbrev pub is_in : List String → String → Bool
is_in ids id = any (str_eq id) ids

-- Shares, with their reports.
unfoldable pub delete_shares : (Share → Bool) → Db → Db
delete_shares p db =
    let gone = map (λ (s : Share). s.share_id) (filter p db.shares) in
    record db {
      shares = delete_many p db.shares;
      reports = delete_many (λ (r : ShareReport). is_in gone r.share_id) db.reports;
    }

-- Transports of the given blobs, with their placements.
unfoldable pub delete_transports : List String → Db → Db
delete_transports ids db = record db {
  transports = delete_many (λ (t : Transport). is_in ids t.blob_id) db.transports;
  placements = delete_many (λ (p : Placement). is_in ids p.blob_id) db.placements;
}

abbrev pub is_of_file : String → Share → Bool
is_of_file id s = opt_eq s.file_id (some id)

-- A file, with its shares.
unfoldable pub delete_file_row : String → Db → Db
unfolding delete_shares
delete_file_row id db =
    let db' = delete_shares (is_of_file id) db in
    record db' { files = delete_many (λ (f : File). str_eq f.id id) db'.files }

abbrev pub detach : Option String → String → Option String
detach parent id = if opt_eq parent (some id) then none else parent

-- A folder, with its shares; files and folders in it come to stand at the top.
unfoldable pub delete_folder_row : String → Db → Db
unfolding delete_shares
delete_folder_row id db =
    let db' = delete_shares (λ s. opt_eq s.folder_id (some id)) db in
    record db' {
      files =
          map (λ (f : File). record f { parent_folder_id = detach f.parent_folder_id id })
            db'.files;
      folders =
          map (λ (f : Folder). record f { parent_folder_id = detach f.parent_folder_id id })
            (delete_many (λ (f : Folder). str_eq f.id id) db'.folders);
    }

-- `update({ where: { id }, data })` of one file.
unfoldable pub update_file : String → ℕ → (File → File) → Db → Db
update_file id now g db = record db {
  files = update_many (λ (f : File). str_eq f.id id) (stamped now g) db.files;
}

unfoldable pub update_share : String → (Share → Share) → Db → Db
update_share id g db = record db {
  shares = update_many (λ (s : Share). str_eq s.share_id id) g db.shares;
}
