-- ===== src/Resolvers/Files/Anonymous.antt =====
-- apps/api/src/resolvers/files.ts: uploads without an account, which belong to the system's user and
-- are found by the session of the browser.
use ddrive.Prelude.{
  ℕ, ◌+◌, Bool, true, false, ◌&&◌, List, [], ◌∷◌, Option, none, some, String, ltb, str_eq,
  if◌then◌else◌, filter, find,
}
use ddrive.Prelude.Tables.{update_many}
use ddrive.Storage.Rows.{ProviderKind, truthy}
use ddrive.Resolvers.Folders.{Folder, find_folder, opt_eq, anonymous_scope, anonymous_ttl_ms}
use ddrive.Database.Rows.{File, stamped, Db}
use ddrive.Database.Actions.{Action, pure, gets, or_raise, ◌>>=◌, ◌>>◌, modify}
use ddrive.Database.Cascades.{is_of_file, delete_shares, delete_folder_row, update_file}
use ddrive.Resolvers.Files.{
  InitUpload, UploadedBlob, PlacementIds, is_null, add_file, new_file, require_folder,
  commit_manifest, is_listed, newest_first,
}
use ddrive.Resolvers.Files.Trash.{purge_counting}

-- `anonSessionId: anonSessionId ?? undefined`: without a session the query asks for none.
abbrev pub any_or_session : Option String → Folder → Bool
any_or_session none f = f.is_anonymous
any_or_session (some s) f = anonymous_scope s f

unfoldable pub init_anonymous_upload :
    String → String → InitUpload → Option String → Option String → ℕ → Action String
unfolding find_folder
init_anonymous_upload id system_user input session parent now = do
  require_folder (any_or_session session) parent "Target folder not found"
  modify (
      add_file
        (new_file id system_user parent input now true session (some (now + anonymous_ttl_ms))))
  pure id

unfoldable pub commit_anonymous_manifest :
    PlacementIds
    → List ProviderKind
    → String
    → String
    → String
    → ℕ
    → ℕ
    → List UploadedBlob
    → Option String
    → ℕ
    → Action Bool
commit_anonymous_manifest id_of kinds system_user id manifest_blob_id total_bytes chunk_count blobs
      parent now =
    do
      result ←
          commit_manifest id_of kinds system_user id manifest_blob_id total_bytes chunk_count blobs
            now
      modify (
          if truthy parent
          then update_file id now (λ f. record f { parent_folder_id = parent })
          else λ db. db)
      pure result

unfoldable pub get_anonymous_uploads_by_session : String → String → Db → List File
get_anonymous_uploads_by_session system_user session db = newest_first (
    filter
      (λ (f : File).
        str_eq f.owner_user_id system_user
        && (opt_eq f.anon_session_id (some session) && is_listed f))
      db.files)

-- A file of the session that is not in the trash.
abbrev pub is_session_file : String → String → String → File → Bool
is_session_file system_user session id f =
    str_eq f.id id
    && (str_eq f.owner_user_id system_user
        && (f.is_anonymous && (opt_eq f.anon_session_id (some session) && is_null f.deleted_at)))

abbrev require_session_file : String → String → String → Action File
require_session_file system_user session id =
    gets (λ (db : Db). find (is_session_file system_user session id) db.files) >>= λ f.
    or_raise f "File not found"

unfoldable pub get_anonymous_files : String → String → Option String → Db → List File
get_anonymous_files system_user session parent db = newest_first (
    filter
      (λ (f : File).
        str_eq f.owner_user_id system_user
        && (f.is_anonymous
            && (opt_eq f.anon_session_id (some session)
                && (opt_eq f.parent_folder_id parent && is_listed f))))
      db.files)

unfoldable pub move_anonymous_file : String → String → Option String → String → ℕ → Action Bool
unfolding find_folder
move_anonymous_file system_user id parent session now = do
  require_session_file system_user session id
  require_folder (anonymous_scope session) parent "Target folder not found"
  modify (update_file id now (λ f. record f { parent_folder_id = parent }))
  pure true

unfoldable pub extend_anonymous_ttl : String → String → String → ℕ → Action Bool
extend_anonymous_ttl system_user id session now = do
  require_session_file system_user session id
  modify (update_file id now (λ f. record f { expires_at = some (now + anonymous_ttl_ms) }))
  pure true

unfoldable pub delete_anonymous_file : String → String → String → ℕ → Action Bool
delete_anonymous_file system_user id session now = do
  require_session_file system_user session id
  modify (update_file id now (λ f. record f { deleted_at = some now }))
  modify (delete_shares (is_of_file id))
  pure true

abbrev pub is_past : ℕ → Option ℕ → Bool
is_past now none = false
is_past now (some t) = ltb t now

-- One expired folder: its files go to the trash, then it is deleted.
unfoldable pub expire_folder : String → ℕ → Folder → Db → Db
expire_folder system_user now folder db = delete_folder_row folder.id (record db {
  files =
      update_many
        (λ (f : File).
          str_eq f.owner_user_id system_user
          && (opt_eq f.parent_folder_id (some folder.id) && is_null f.deleted_at))
        (stamped now (λ f. record f { deleted_at = some now })) db.files;
})

unfoldable pub expire_folders : String → ℕ → List Folder → Db → Db
unfolding expire_folder
expire_folders system_user now [] db = db
expire_folders system_user now (f ∷ fs) db =
    expire_folders system_user now fs (expire_folder system_user now f db)

abbrev pub is_expired_file : ℕ → File → Bool
is_expired_file now f = f.is_anonymous && (is_past now f.expires_at && is_null f.deleted_at)

unfoldable pub purge_expired_anonymous_files : String → ℕ → Db → ℕ × Db
unfolding expire_folders
purge_expired_anonymous_files system_user now db =
    let folders = filter (λ (f : Folder). f.is_anonymous && is_past now f.expires_at) db.folders in
    let db' = expire_folders system_user now folders db in
    purge_counting (filter (is_expired_file now) db'.files) db'
