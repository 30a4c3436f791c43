-- ===== src/Resolvers/FolderTrees.antt =====
-- apps/api/src/resolvers/folders.ts: the deletion of a folder with what is below it. The recursion is on
-- fuel, as it does not end on a table with a cycle.
pub mod Marking
pub mod Kept
pub mod Ending
use ddrive.Prelude.{
  ℕ, zero, suc, Bool, true, false, ◌&&◌, List, [], ◌∷◌, Option, none, some, String, str_eq, map,
  filter,
}
use ddrive.Prelude.Tables.{update_many}
use ddrive.Storage.Rows.{Result, ok, err}
use ddrive.Middleware.Auth.{is_null}
use ddrive.Resolvers.Folders.{Folder, opt_eq, owned_by, anonymous_scope, find_folder}
use ddrive.Database.Rows.{File, stamped, Db}
use ddrive.Database.Cascades.{delete_folder_row}

-- `for (const child of children) await f(child.id)`, and `none` when the fuel of one runs out.
abbrev pub each_folder : (String → Db → Option Db) → List String → Db → Option Db
each_folder f [] db = some db
each_folder f (id ∷ ids) db = elim (f id db) [ none ↦ none | some db' ↦ each_folder f ids db' ]

-- `db.folder.findMany({ where: { ownerUserId, parentFolderId: folderId } })`, by their identifiers.
abbrev pub is_child : String → String → Folder → Bool
is_child owner id f = owned_by owner f && opt_eq f.parent_folder_id (some id)

unfoldable pub children : String → String → List Folder → List String
children owner id folders = map (λ (f : Folder). f.id) (filter (is_child owner id) folders)

-- A file of an account that is not in the trash, and one that stands in a folder.
abbrev pub is_live_of : String → File → Bool
is_live_of owner f = str_eq f.owner_user_id owner && is_null f.deleted_at

abbrev pub stands_in : String → String → File → Bool
stands_in owner id f = is_live_of owner f && opt_eq f.parent_folder_id (some id)

unfoldable pub mark_deleted : String → ℕ → String → Db → Db
mark_deleted owner now id db = record db {
  files =
      update_many (stands_in owner id) (stamped now (λ f. record f { deleted_at = some now }))
        db.files;
}

unfoldable pub soft_delete_files_in_tree : ℕ → String → ℕ → String → Db → Option Db
unfolding mark_deleted children
soft_delete_files_in_tree zero owner now id db = none
soft_delete_files_in_tree (suc fuel) owner now id db =
    let db' = mark_deleted owner now id db in
    each_folder (soft_delete_files_in_tree fuel owner now) (children owner id db'.folders) db'

unfoldable pub delete_folder_tree : ℕ → String → String → Db → Option Db
unfolding children delete_folder_row
delete_folder_tree zero owner id db = none
delete_folder_tree (suc fuel) owner id db =
    elim (each_folder (delete_folder_tree fuel owner) (children owner id db.folders) db) [
      | none ↦ none
      | some db' ↦ some (delete_folder_row id db')
    ]

unfoldable pub delete_folder : ℕ → String → ℕ → String → Db → Option (Result Bool × Db)
unfolding soft_delete_files_in_tree delete_folder_tree find_folder
delete_folder fuel owner now id db = elim (find_folder (owned_by owner) db.folders id) [
  | none ↦ some (err "Folder not found", db)
  | some folder ↦ elim (soft_delete_files_in_tree fuel owner now id db) [
    | none ↦ none
    | some db1 ↦ elim (delete_folder_tree fuel owner id db1) [
      | none ↦ none
      | some db2 ↦ some (ok true, db2)
    ]
  ]
]

-- The same for calls that may throw: the first error ends the loop, what was written stays.
abbrev pub each_call :
    (String → Db → Option (Result Bool × Db)) → List String → Db → Option (Result Bool × Db)
each_call f [] db = some (ok true, db)
each_call f (id ∷ ids) db = elim (f id db) [
  | none ↦ none
  | some (err e, db') ↦ some (err e, db')
  | some (ok b, db') ↦ each_call f ids db'
]

abbrev pub in_session_folder : String → String → String → File → Bool
in_session_folder system session id f =
    stands_in system id f && opt_eq f.anon_session_id (some session)

unfoldable pub session_children : String → String → String → List Folder → List String
session_children system session id folders =
    map (λ (f : Folder). f.id)
      (filter (λ (f : Folder). is_child system id f && opt_eq f.anon_session_id (some session))
        folders)

unfoldable pub delete_anonymous_folder :
    ℕ → String → String → ℕ → String → Db → Option (Result Bool × Db)
unfolding session_children delete_folder_row find_folder
delete_anonymous_folder zero system session now id db = none
delete_anonymous_folder (suc fuel) system session now id db =
    let db1 = record db {
      files =
          update_many (in_session_folder system session id)
            (stamped now (λ f. record f { deleted_at = some now })) db.files;
    } in
    let below =
      each_call (delete_anonymous_folder fuel system session now)
        (session_children system session id db1.folders) db1 in
    elim (find_folder (anonymous_scope session) db.folders id) [
      | none ↦ some (err "Folder not found", db)
      | some folder ↦ elim below [
        | none ↦ none
        | some (err e, db2) ↦ some (err e, db2)
        | some (ok b, db2) ↦ some (ok true, delete_folder_row id db2)
      ]
    ]
