-- ===== src/Resolvers/Files/Trash/Restoring.antt =====
-- apps/api/src/resolvers/files.ts: a file that goes to the trash and comes back.
use ddrive.Prelude.{
  ℕ, ◌≡◌, refl, sym, ap, ◌∙◌, subst, true, ◌&&◌, [], Option, none, some, String, arith, find,
  filter, str_eq, All, All-mono, if◌then◌else◌, eq_iff,
}
use ddrive.Prelude.Tables.{update_many, delete_many}
use ddrive.Storage.Rows.{ok, truthy}
use ddrive.Database.Rows.{File, stamped, Share, Db}
use ddrive.Database.Cascades.{is_of_file, delete_shares, update_file}
use ddrive.Database.Keys.{
  filter-deleted, UniqueKeys, unique-found, find-passes, find-updated, update_many_twice,
}
use ddrive.Resolvers.Folders.{find_folder, owned_by}
use ddrive.Resolvers.Files.{owned_file, delete_file, is_null}
use ddrive.Resolvers.Files.Trash.{is_trashed, parent_left, restore_file}
use ddrive.Resolvers.Files.Trash.Purging.{file_id}

abbrev trashed : ℕ → File → File
trashed now = stamped now (λ f. record f { deleted_at = some now })

abbrev restored : Option String → ℕ → File → File
restored parent later =
    stamped later (λ f. record f { deleted_at = none; parent_folder_id = parent })

delete_file-files :
    (owner id : String) (now : ℕ) (db : Db) (f : File)
    → find (owned_file owner id) db.files ≡ some f
    → ((delete_file owner id now db).0 ≡ ok true)
      × ((delete_file owner id now db).1.files
          ≡ update_many (λ (g : File). str_eq g.id id) (trashed now) db.files)
      × ((delete_file owner id now db).1.folders ≡ db.folders)
      × ((delete_file owner id now db).1.shares
          ≡ delete_many (λ (s : Share). is_of_file id s && str_eq s.owner_user_id owner) db.shares)
unfolding delete_file update_file delete_shares
delete_file-files owner id now db f e =
    (ground (arith, e), ground (arith, e), ground (arith, e), ground (arith, e))

restore_file-files :
    (owner id : String) (now : ℕ) (db : Db) (f : File) (parent : Option String)
    → find (λ (g : File). str_eq g.id id && is_trashed owner g) db.files ≡ some f
    → parent_left owner f.parent_folder_id db ≡ parent
    → ((restore_file owner id now db).0 ≡ ok true)
      × ((restore_file owner id now db).1.files
          ≡ update_many (λ (g : File). str_eq g.id id) (restored parent now) db.files)
unfolding restore_file update_file
restore_file-files owner id now db f parent e left =
    (ground (arith, e, left), ground (arith, e, left))

parent_left-folders :
    (owner : String) (parent : Option String) (db db' : Db)
    → db'.folders ≡ db.folders
    → parent_left owner parent db' ≡ parent_left owner parent db
parent_left-folders owner none db db' e = refl
parent_left-folders owner (some p) db db' e =
    ap
      (λ fs.
        if truthy (some p) && is_null (find_folder (owned_by owner) fs p) then none else some p)
      e

-- A file of an account, once deleted, is in the account's trash and no share of it by the account
-- is left; restoring it then gives the table of files back as it was, but that the file is marked
-- as updated at that time, if the file was not deleted before, identifiers are unique, and the
-- folder it stood in, if any, is still one of the account.
pub restore_file-delete_file :
    (owner id : String) (now later : ℕ) (db : Db) (f : File)
    → UniqueKeys file_id db.files
    → find (owned_file owner id) db.files ≡ some f
    → f.deleted_at ≡ none
    → parent_left owner f.parent_folder_id db ≡ f.parent_folder_id
    → ((delete_file owner id now db).0 ≡ ok true)
      × (find
            (λ (g : File). str_eq g.id id && is_trashed owner g)
            (delete_file owner id now db).1.files
          ≡ some (record f { deleted_at = some now; updated_at = now }))
      × (filter
            (λ (s : Share). is_of_file id s && str_eq s.owner_user_id owner)
            (delete_file owner id now db).1.shares
          ≡ [])
      × ((restore_file owner id later (delete_file owner id now db).1).0 ≡ ok true)
      × ((restore_file owner id later (delete_file owner id now db).1).1.files
          ≡ update_many
              (λ (g : File). str_eq g.id id)
              (λ g. record g { updated_at = later })
              db.files)
unfolding restore_file update_file parent_left
restore_file-delete_file owner id now later db f unique found alive parent =
    let (done, files, folders, shares) = delete_file-files owner id now db f found in
    let mine = find-passes (owned_file owner id) db.files f found in
    let row : str_eq f.id id ≡ true = ground (arith, mine) in
    let same : All (λ r. str_eq r.id id ≡ true → r ≡ f) db.files =
      subst (λ x. All (λ (r : File). str_eq r.id x ≡ true → r ≡ f) db.files)
        ((eq_iff f.id id).0 row)
        (unique-found file_id (owned_file owner id) db.files f unique found) in
    let in_trash : find (λ (g : File). str_eq g.id id && is_trashed owner g)
          (delete_file owner id now db).1.files
        ≡ some (trashed now f) =
      rw files (
        find-updated (λ (g : File). str_eq g.id id) (λ g. str_eq g.id id && is_trashed owner g)
          (owned_file owner id) (trashed now) db.files f
          (λ r t. (ground (arith, t), ground (arith, t))) same (ground (arith, mine)) found) in
    let (back, rows) =
      restore_file-files owner id later (delete_file owner id now db).1 (trashed now f)
        f.parent_folder_id in_trash
        (parent_left-folders owner f.parent_folder_id db (delete_file owner id now db).1 folders
          ∙ parent) in
    (
      done,
      in_trash,
      rw shares (
          filter-deleted (λ (s : Share). is_of_file id s && str_eq s.owner_user_id owner)
            db.shares),
      back,
      rows
          ∙ (ap (update_many (λ (g : File). str_eq g.id id) (restored f.parent_folder_id later))
                files
              ∙ update_many_twice (λ (g : File). str_eq g.id id) (trashed now)
                  (restored f.parent_folder_id later) (λ g. record g { updated_at = later })
                  db.files
                  (All-mono (λ r. str_eq r.id id ≡ true → r ≡ f)
                    (λ r.
                      str_eq r.id id ≡ true
                      → (str_eq r.id id ≡ true)
                        × (restored f.parent_folder_id later (trashed now r)
                            ≡ record r { updated_at = later }))
                    (λ r e k. (
                      k,
                      rw (e k)
                          (ap (λ d. record f { deleted_at = d; updated_at = later }) (sym alive)),
                    ))
                    db.files same)),
    )
