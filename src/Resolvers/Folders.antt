-- ===== src/Resolvers/Folders.antt =====
-- apps/api/src/resolvers/folders.ts over the table of folders, for the folders of an account and
-- for those of an anonymous session: the two differ by their scope, a test on rows. A row's id is
-- not empty. Sizes and counts, which `enrichFolders` adds to what is returned, are left out.
pub mod Rooted
pub mod Moving
pub mod Subfolders
use ddrive.Prelude.{
  ℕ, zero, suc, ◌+◌, ◌*◌, Bool, true, false, ◌&&◌, ◌||◌, List, [], ◌∷◌, ◌++◌, Option, none, some,
  String, str_eq, if◌then◌else◌, find, filter, any,
}
use ddrive.Prelude.Tables.{update_many, delete_many}
use ddrive.Storage.Rows.{Result, ok, err}

-- `Folder` but for `updatedAt`.
pub record Folder : Type 0 where
  pub id : String
  pub owner_user_id : String
  pub parent_folder_id : Option String
  pub name : String
  pub created_at : ℕ
  pub is_anonymous : Bool
  pub anon_session_id : Option String
  pub expires_at : Option ℕ

-- `a === b` for texts that may be null.
abbrev pub opt_eq : Option String → Option String → Bool
opt_eq none none = true
opt_eq (some a) (some b) = str_eq a b
opt_eq _ _ = false

-- `{ ownerUserId }`.
abbrev pub owned_by : String → Folder → Bool
owned_by owner f = str_eq f.owner_user_id owner

-- `anonymousScope(anonSessionId)`.
abbrev pub anonymous_scope : String → Folder → Bool
anonymous_scope session f = f.is_anonymous && opt_eq f.anon_session_id (some session)

-- A call that may not come to its end: `none` when the fuel runs out.
abbrev pub Call {ℓ} : Type ℓ → Type ℓ
Call A = Option (Result A)

-- `folder?.parentFolderId ?? null`.
abbrev pub parent_field : Option Folder → Option String
parent_field none = none
parent_field (some f) = f.parent_folder_id

module _ (scope : Folder → Bool) where
  abbrev pub is_row : String → Folder → Bool
  is_row id f = str_eq f.id id && scope f

  -- `db.folder.findFirst({ where: { id, ...scope } })`.
  unfoldable pub find_folder : List Folder → String → Option Folder
  find_folder folders id = find (is_row id) folders

  -- `ancestor?.parentFolderId ?? null`.
  unfoldable pub parent_of : List Folder → String → Option String
  unfolding find_folder
  parent_of folders id = parent_field (find_folder folders id)

  -- `while (cursor) { ... }`: does the walk upwards meet `folder_id`?
  pub meets : ℕ → List Folder → String → Option String → Option Bool
  meets zero folders folder_id cursor = none
  meets (suc fuel) folders folder_id none = some false
  meets (suc fuel) folders folder_id (some c) = elim (str_eq c folder_id) [
    | true ↦ some true
    | false ↦ meets fuel folders folder_id (parent_of folders c)
  ]

  -- `db.folder.update({ where: { id }, data: { parentFolderId } })`.
  unfoldable pub set_parent : String → Option String → List Folder → List Folder
  set_parent id parent folders =
      update_many (λ f. str_eq f.id id) (λ f. record f { parent_folder_id = parent }) folders

  -- The checks on a target folder, and the update.
  move_under : ℕ → List Folder → String → String → Call (List Folder)
  move_under fuel folders folder_id target = elim (find_folder folders target) [
    | none ↦ some (err "Target folder not found")
    | some parent ↦ elim (meets fuel folders folder_id parent.parent_folder_id) [
      | none ↦ none
      | some true ↦ some (err "Cannot move folder into its own subfolder")
      | some false ↦ some (ok (set_parent folder_id (some target) folders))
    ]
  ]

  -- `moveFolder` and `moveAnonymousFolder`: the table afterwards.
  unfoldable pub move_folder : ℕ → List Folder → String → Option String → Call (List Folder)
  unfolding move_under meets
  move_folder fuel folders folder_id parent = elim (find_folder folders folder_id) [
    | none ↦ some (err "Folder not found")
    | some f ↦ elim (opt_eq parent (some folder_id)) [
      | true ↦ some (err "Cannot move folder into itself")
      | false ↦ elim parent [
        | none ↦ some (ok (set_parent folder_id none folders))
        | some target ↦ move_under fuel folders folder_id target
      ]
    ]
  ]

  -- `renameFolder` and `renameAnonymousFolder`.
  unfoldable pub rename_folder : List Folder → String → String → Result (List Folder)
  rename_folder folders folder_id name = elim (find_folder folders folder_id) [
    | none ↦ err "Folder not found"
    | some f ↦ ok (update_many (λ g. str_eq g.id folder_id) (λ g. record g { name = name }) folders)
  ]

  -- The check on the parent, and the row that is added.
  insert_folder : List Folder → Folder → Result (List Folder × Folder)
  insert_folder folders row = elim row.parent_folder_id [
    | none ↦ ok (folders ++ row ∷ [], row)
    | some p ↦ elim (find_folder folders p) [
      | none ↦ err "Parent folder not found"
      | some parent ↦ ok (folders ++ row ∷ [], row)
    ]
  ]

  -- The loop of `getFolderPath`: `seen` stops it on a cycle. The path is built from its end.
  path_from : ℕ → List Folder → Option String → List String → List Folder → Option (List Folder)
  path_from zero folders current seen path = none
  path_from (suc fuel) folders none seen path = some path
  path_from (suc fuel) folders (some c) seen path = elim (any (str_eq c) seen) [
    | true ↦ some path
    | false ↦ elim (find_folder folders c) [
      | none ↦ some path
      | some f ↦ path_from fuel folders f.parent_folder_id (c ∷ seen) (f ∷ path)
    ]
  ]

  unfoldable pub get_folder_path : ℕ → List Folder → String → Option (List Folder)
  unfolding path_from
  get_folder_path fuel folders folder_id = path_from fuel folders (some folder_id) [] []

-- `createFolder`, with the identifier that the database makes up.
unfoldable pub create_folder :
    List Folder → String → ℕ → String → String → Option String → Result (List Folder × Folder)
unfolding insert_folder
create_folder folders new_id now owner name parent =
    insert_folder (owned_by owner) folders (record {
      id = new_id;
      owner_user_id = owner;
      parent_folder_id = parent;
      name = name;
      created_at = now;
      is_anonymous = false;
      anon_session_id = none;
      expires_at = none;
    })

-- `config.anonymousTTLDays` in milliseconds.
abbrev pub anonymous_ttl_ms : ℕ
anonymous_ttl_ms = 30 * 86400000

-- `createAnonymousFolder`: the folder belongs to the system's user.
unfoldable pub create_anonymous_folder :
    List Folder
    → String
    → ℕ
    → String
    → String
    → Option String
    → String
    → Result (List Folder × Folder)
unfolding insert_folder
create_anonymous_folder folders new_id now system_user name parent session =
    insert_folder (anonymous_scope session) folders (record {
      id = new_id;
      owner_user_id = system_user;
      parent_folder_id = parent;
      name = name;
      created_at = now;
      is_anonymous = true;
      anon_session_id = some session;
      expires_at = some (now + anonymous_ttl_ms);
    })

-- The operations on the folders of an anonymous session.
abbrev pub rename_anonymous_folder : List Folder → String → String → String → Result (List Folder)
rename_anonymous_folder folders folder_id name session =
    rename_folder (anonymous_scope session) folders folder_id name

abbrev pub move_anonymous_folder :
    ℕ → List Folder → String → Option String → String → Call (List Folder)
move_anonymous_folder fuel folders folder_id parent session =
    move_folder (anonymous_scope session) fuel folders folder_id parent

abbrev pub get_anonymous_folder_path : ℕ → List Folder → String → String → Option (List Folder)
get_anonymous_folder_path fuel folders session folder_id =
    get_folder_path (anonymous_scope session) fuel folders folder_id
