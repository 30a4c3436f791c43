-- ===== src/Tests/Resolvers.antt =====
-- apps/api/src/resolvers/folders.ts on a concrete tree of folders.
use ddrive.Prelude.{
  str_eq, if◌then◌else◌, ℕ, get_elem?, true, filter, ◌≤◌, ◌≡◌, refl, false, inl, inr, ◌≢◌, List, [],
  ◌∷◌, Option, none, some, String, arith, str_cases, subst, find, eq_iff,
}
use ddrive.Prelude.Tables.{update_many}
use ddrive.Storage.Rows.{ok, err}
use ddrive.Database.Rows.{File, Db, empty_db, ready}
use ddrive.Database.Cascades.{delete_folder_row, delete_shares}
use ddrive.Prelude.Tables.{delete_many}
use ddrive.Resolvers.FolderTrees.{
  children, mark_deleted, soft_delete_files_in_tree, delete_folder_tree, delete_folder,
}
use ddrive.Resolvers.FolderTrees.Kept.{delete_folder-live}
use ddrive.Resolvers.FolderTrees.Ending.{delete_folder-ends}
use ddrive.Resolvers.Folders.{
  Folder, owned_by, parent_of, find_folder, move_folder, set_parent, get_folder_path,
}
use ddrive.Resolvers.Folders.Rooted.{Rooted, top, below, IsForest}
use ddrive.Resolvers.Folders.Moving.{move_folder-IsForest}
use ddrive.Resolvers.Folders.Subfolders.{Fate, move_folder-outcome}

abbrev folder : String → Option String → Folder
folder id parent = record {
  id = id;
  owner_user_id = "u1";
  parent_folder_id = parent;
  name = id;
  created_at = 0;
  is_anonymous = false;
  anon_session_id = none;
  expires_at = none;
}

abbrev tree : List Folder
tree = folder "a" none ∷ folder "b" (some "a") ∷ folder "c" none ∷ []

abbrev moved : List Folder
moved = folder "a" (some "c") ∷ folder "b" (some "a") ∷ folder "c" none ∷ []

mine-tree : (id : String) → id ≢ "b" → parent_of (owned_by "u1") tree id ≡ none
unfolding parent_of find_folder find
mine-tree id ne = ground (arith, eq_iff "b" id)

tree-IsForest : IsForest (owned_by "u1") tree
unfolding parent_of find_folder find
tree-IsForest id = elim (str_cases "b" id) [
  | inl (t, eq) ↦
      subst (λ x. (n : ℕ) × Rooted (owned_by "u1") tree x n) eq
        (1, below {id = "b"} {p = "a"} refl (top refl))
  | inr (t, ne) ↦ (0, top (mine-tree id (λ e. cc)))
]

move_runs : move_folder (owned_by "u1") 9 tree "a" (some "c") ≡ some (ok moved)
unfolding move_folder parent_of find_folder find set_parent update_many
move_runs = refl

move_into_subfolder :
    move_folder (owned_by "u1") 9 tree "a" (some "b")
    ≡ some (err "Cannot move folder into its own subfolder")
unfolding move_folder parent_of find_folder find
move_into_subfolder = refl

path_down :
    get_folder_path (owned_by "u1") 9 tree "b" ≡ some (folder "a" none ∷ folder "b" (some "a") ∷ [])
unfolding get_folder_path find_folder find
path_down = refl

move_folder-IsForest_example : IsForest (owned_by "u1") moved
move_folder-IsForest_example =
    move_folder-IsForest (owned_by "u1") (λ f parent. refl) 9 tree moved "a" (some "c")
      tree-IsForest move_runs

a_there : find_folder (owned_by "u1") tree "a" ≢ none
unfolding find_folder find
a_there e = cc

b_there : find_folder (owned_by "u1") tree "b" ≢ none
unfolding find_folder find
b_there e = cc

move_folder-outcome_example :
    (enough : ℕ) × ((fuel : ℕ) → enough ≤ fuel → Fate (owned_by "u1") fuel tree "a" "b")
move_folder-outcome_example =
    move_folder-outcome (owned_by "u1") tree "a" "b" tree-IsForest a_there b_there

abbrev file : String → Option String → Option ℕ → File
file id parent deleted = record {
  id = id;
  owner_user_id = "u1";
  parent_folder_id = parent;
  name = some id;
  mime_type = none;
  primary_manifest_blob_id = none;
  preview_blob_id = none;
  thumbnail_blob_id = none;
  poster_blob_id = none;
  status = ready;
  total_bytes = 1;
  chunk_count = 1;
  created_at = 0;
  updated_at = 0;
  deleted_at = deleted;
  is_anonymous = false;
  anon_session_id = none;
  expires_at = none;
}

abbrev tables : Db
tables = record empty_db {
  files = file "f1" (some "b") none ∷ file "f2" (some "c") none ∷ [];
  folders = tree;
}

abbrev without_a : Db
without_a = record empty_db {
  files = record (file "f1" none (some 7)) { updated_at = 7 } ∷ file "f2" (some "c") none ∷ [];
  folders = folder "c" none ∷ [];
}

deletes_below : delete_folder 3 "u1" 7 "a" tables ≡ some (ok true, without_a)
unfolding delete_folder soft_delete_files_in_tree delete_folder_tree mark_deleted children
    find_folder find filter update_many delete_many delete_folder_row delete_shares
deletes_below = refl

delete_folder-live_example : get_elem? tables.files 1 ≡ some (file "f2" (some "c") none)
delete_folder-live_example =
    delete_folder-live 3 "u1" 7 "a" tables without_a (ok true) 1 (file "f2" (some "c") none)
      deletes_below refl refl

-- The rank of `b`, which stands in `a`, is one above.
abbrev rank : String → ℕ
rank id = if str_eq id "b" then 1 else 0

delete_folder-ends_example : (db' : Db) × (delete_folder 3 "u1" 7 "a" tables ≡ some (ok true, db'))
unfolding find_folder find
delete_folder-ends_example =
    delete_folder-ends "u1" rank 1 3 7 "a" tables (folder "a" none) (refl, (refl, (refl, tt))) refl
      (omega arith)
