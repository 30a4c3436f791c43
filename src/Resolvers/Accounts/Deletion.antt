-- ===== src/Resolvers/Accounts/Deletion.antt =====
-- apps/api/src/resolvers/auth.ts: the deletion of an account, and what the database deletes with it.
use ddrive.Prelude.{
  ℕ, ◌+◌, Bool, true, false, not, ◌||◌, List, ◌++◌, Option, none, some, String, map, ltb, str_eq,
  if◌then◌else◌, filter, find,
}
use ddrive.Prelude.Tables.{update_many}
use ddrive.Prelude.Texts.{codes}
use ddrive.Storage.Rows.{Result, ok, err}
use ddrive.Database.Rows.{Db}
use ddrive.Middleware.Auth.{DeviceSession, ApiKey, is_null}
use ddrive.Prelude.Tables.{delete_many}
use ddrive.Storage.Rows.{Transport}
use ddrive.Resolvers.Folders.{Folder}
use ddrive.Database.Rows.{File, Share}
use ddrive.Database.Cascades.{is_in, delete_shares, delete_transports}
use ddrive.Resolvers.Accounts.{
  Accounts, User, EmailVerification, AccountDeletion, Outside, Mail, deletion_mail, add_row,
  find_user, verify_password, delete_account_token_ttl_ms,
}
use ddrive.Resolvers.Accounts.Registration.{send, without_slash}

-- The parent of a row that is left: none where its folder has gone.
abbrev pub detach_all : List String → Option String → Option String
detach_all gone none = none
detach_all gone (some id) = if is_in gone id then none else some id

abbrev pub is_in_opt : List String → Option String → Bool
is_in_opt ids none = false
is_in_opt ids (some id) = is_in ids id

abbrev pub owned_blobs : String → Db → List String
owned_blobs user_id db =
    map (λ (t : Transport). t.blob_id)
      (filter (λ (t : Transport). str_eq t.owner_user_id user_id) db.transports)

abbrev pub owned_folders : String → Db → List String
owned_folders user_id db =
    map (λ (f : Folder). f.id) (filter (λ (f : Folder). str_eq f.owner_user_id user_id) db.folders)

abbrev owned_files : String → Db → List String
owned_files user_id db =
    map (λ (f : File). f.id) (filter (λ (f : File). str_eq f.owner_user_id user_id) db.files)

abbrev pub lost_share : String → Db → Share → Bool
lost_share user_id db s =
    str_eq s.owner_user_id user_id
    || (is_in_opt (owned_files user_id db) s.file_id
        || is_in_opt (owned_folders user_id db) s.folder_id)

-- Files, folders, blobs and shares of a user, and the shares of those files and folders.
unfoldable pub delete_owned : String → Db → Db
unfolding delete_shares delete_transports
delete_owned user_id db =
    let gone = owned_folders user_id db in
    let db' =
      delete_shares (lost_share user_id db) (delete_transports (owned_blobs user_id db) db) in
    record db' {
      files =
          map (λ (f : File). record f { parent_folder_id = detach_all gone f.parent_folder_id })
            (delete_many (λ (f : File). str_eq f.owner_user_id user_id) db'.files);
      folders =
          map (λ (f : Folder). record f { parent_folder_id = detach_all gone f.parent_folder_id })
            (delete_many (λ (f : Folder). str_eq f.owner_user_id user_id) db'.folders);
    }

-- `db.user.delete({ where: { id } })`.
unfoldable pub delete_user : String → Accounts → Accounts
unfolding delete_owned
delete_user id w = record w {
  users = delete_many (λ (u : User). str_eq u.id id) w.users;
  verifications = delete_many (λ (v : EmailVerification). str_eq v.user_id id) w.verifications;
  account_deletions =
      delete_many (λ (d : AccountDeletion). str_eq d.user_id id) w.account_deletions;
  auth = record w.auth {
    sessions = delete_many (λ (s : DeviceSession). str_eq s.user_id id) w.auth.sessions;
    api_keys = delete_many (λ (k : ApiKey). str_eq k.user_id id) w.auth.api_keys;
  };
  db = delete_owned id w.db;
}

abbrev pub deletion_of : String → AccountDeletion → Bool
deletion_of hash d = str_eq d.token_hash hash

module _ (o : Outside) where
  unfoldable pub request_account_deletion :
      String → String → String → String → ℕ → Accounts → Result Bool × Accounts
  unfolding send
  request_account_deletion user_id current_password raw_token row_id now w =
      let hash = o.hashing.sha256_hex raw_token in
      let row : AccountDeletion = record {
        id = row_id;
        user_id = user_id;
        token_hash = hash;
        expires_at = now + delete_account_token_ttl_ms;
        used_at = none;
        created_at = now;
      } in
      let link =
        without_slash o.frontend_url ++ codes "/confirm-delete-account?token=" ++ codes raw_token in
      elim (find_user user_id w.users) [
        | none ↦ (err "User not found", w)
        | some u ↦
            if not (verify_password o current_password u.password_hash)
            then (err "Current password is incorrect", w)
            else elim (add_row
                (λ (d : AccountDeletion). str_eq d.token_hash hash || str_eq d.id row_id) row
                w.account_deletions) [
                  | err e ↦ (err e, w)
                  | ok rows ↦
                      let mail : Mail = record {
                        kind = deletion_mail;
                        to = u.email;
                        username = u.username;
                        link = link;
                      } in
                      let (sent, w') = send o mail (record w { account_deletions = rows }) in
                      elim sent [ err e ↦ (err e, w') | ok done ↦ (ok true, w') ]
                ]
      ]

  -- The deletion of a user whose row has gone is an error of the database.
  unfoldable pub confirm_account_deletion : String → ℕ → Accounts → Result Bool × Accounts
  unfolding delete_user
  confirm_account_deletion token now w =
      elim (find (deletion_of (o.hashing.sha256_hex token)) w.account_deletions) [
        | none ↦ (err "Invalid deletion token", w)
        | some row ↦
            let w' = record w {
              account_deletions =
                  update_many (λ (d : AccountDeletion). str_eq d.id row.id)
                    (λ d. record d { used_at = some now }) w.account_deletions;
            } in
            if not (is_null row.used_at)
            then (err "Deletion link already used", w)
            else if ltb row.expires_at now
            then (err "Deletion link expired", w)
            else elim (find_user row.user_id w.users) [
              | none ↦ (err "Record to delete does not exist", w')
              | some u ↦ (ok true, delete_user row.user_id w')
            ]
      ]
