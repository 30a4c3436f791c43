-- ===== src/Resolvers/FolderTrees/Ending.antt =====
-- apps/api/src/resolvers/folders.ts: the deletion of a folder ends where folders have ranks.
use ddrive.Prelude.{
  ℕ, zero, suc, ◌+◌, ◌<◌, ◌≤◌, ◌≡◌, refl, inl, inr, Bool, true, ◌&&◌, List, [], ◌∷◌, Option, none,
  some, String, str_eq, map, filter, ltb, leb, All, Bool-cases, Option-cases, arith, eq_iff,
}
use ddrive.Prelude.Tables.{delete_many}
use ddrive.Storage.Rows.{ok}
use ddrive.Resolvers.Folders.{Folder, owned_by, is_row, find_folder}
use ddrive.Database.Rows.{Db}
use ddrive.Database.Keys.{find-All, find-passes}
use ddrive.Database.Cascades.{delete_folder_row, delete_shares, detach}
use ddrive.Resolvers.FolderTrees.{
  each_folder, is_child, children, mark_deleted, soft_delete_files_in_tree, delete_folder_tree,
  delete_folder,
}

-- A folder's rank is at most a bound, and above that of its parent.
abbrev pub ranked : (String → ℕ) → ℕ → Folder → Bool
ranked d top f =
    leb (d f.id) top && elim f.parent_folder_id [ none ↦ true | some p ↦ ltb (d p) (d f.id) ]

abbrev pub Ranked : (String → ℕ) → ℕ → List Folder → Type 0
Ranked d top folders = All (λ f. ranked d top f ≡ true) folders

module _ (owner : String) (d : String → ℕ) (top : ℕ) where
  abbrev Enough : ℕ → String → Type 0
  Enough fuel id = (d id ≤ top) × (top < fuel + d id)

  abbrev Ended : Option Db → Type 0
  Ended r = (b : Db) × (r ≡ some b) × Ranked d top b.folders

  each_folder-ends :
      (J : String → Type 0) (f : String → Db → Option Db)
      → ((c : String) (a : Db) → Ranked d top a.folders → J c → Ended (f c a))
      → (ids : List String) (a : Db) → Ranked d top a.folders
      → All J ids
      → Ended (each_folder f ids a)
  each_folder-ends J f one [] a r h = (a, refl, r)
  each_folder-ends J f one (id ∷ ids) a r (k, h) =
      let (m, e, s) = one id a r k in
      let (b, e', s') = each_folder-ends J f one ids m s h in (b, rw (e, each_folder) e', s')

  children-Enough :
      (fuel : ℕ) (id : String) (folders : List Folder)
      → top < suc fuel + d id
      → Ranked d top folders
      → All (Enough fuel) (children owner id folders)
  unfolding children filter
  children-Enough fuel id [] lt r = tt
  children-Enough fuel id (f ∷ fs) lt (k, r) = elim (Option-cases f.parent_folder_id) [
    | inl t ↦ ground (arith, t, children-Enough fuel id fs lt r)
    | inr (p, t) ↦ elim (Bool-cases (is_child owner id f)) [
      | inr u ↦ rw u (children-Enough fuel id fs lt r)
      | inl u ↦ rw u (
        (ground (arith, k, t, u, eq_iff p id), ground (arith, k, t, u, eq_iff p id, lt)),
        children-Enough fuel id fs lt r,
      )
    ]
  ]

  delete_rows-Ranked :
      (id : String) (fs : List Folder)
      → Ranked d top fs
      → Ranked d top (
          map
            (λ (f : Folder). record f { parent_folder_id = detach f.parent_folder_id id })
            (delete_many (λ (f : Folder). str_eq f.id id) fs))
  unfolding delete_many
  delete_rows-Ranked id [] r = tt
  delete_rows-Ranked id (f ∷ fs) (k, r) = elim (Bool-cases (str_eq f.id id)) [
    | inl t ↦ rw t (delete_rows-Ranked id fs r)
    | inr t ↦ rw t (detached, delete_rows-Ranked id fs r)
  ]
    where
      detached : ranked d top (record f { parent_folder_id = detach f.parent_folder_id id }) ≡ true
      detached = elim (Option-cases f.parent_folder_id) [
        | inl t ↦ ground (arith, k, t)
        | inr (p, t) ↦ ground (arith, k, t)
      ]

  delete_row-Ranked :
      (id : String) (db : Db)
      → Ranked d top db.folders
      → Ranked d top (delete_folder_row id db).folders
  unfolding delete_folder_row delete_shares
  delete_row-Ranked id db r = delete_rows-Ranked id db.folders r

  soft_delete_files_in_tree-ends :
      (fuel now : ℕ) (id : String) (a : Db)
      → Ranked d top a.folders
      → Enough fuel id
      → Ended (soft_delete_files_in_tree fuel owner now id a)
  unfolding soft_delete_files_in_tree mark_deleted
  soft_delete_files_in_tree-ends zero now id a r (le, lt) = absurd (omega (arith, le, lt))
  soft_delete_files_in_tree-ends (suc fuel) now id a r (le, lt) =
      each_folder-ends (Enough fuel) (soft_delete_files_in_tree fuel owner now)
        (λ c x s k. soft_delete_files_in_tree-ends fuel now c x s k) (children owner id a.folders)
        (mark_deleted owner now id a) r (children-Enough fuel id a.folders lt r)

  delete_folder_tree-ends :
      (fuel : ℕ) (id : String) (a : Db)
      → Ranked d top a.folders
      → Enough fuel id
      → Ended (delete_folder_tree fuel owner id a)
  unfolding delete_folder_tree
  delete_folder_tree-ends zero id a r (le, lt) = absurd (omega (arith, le, lt))
  delete_folder_tree-ends (suc fuel) id a r (le, lt) =
      let (m, e, s) =
        each_folder-ends (Enough fuel) (delete_folder_tree fuel owner)
          (λ c x s k. delete_folder_tree-ends fuel c x s k) (children owner id a.folders) a r
          (children-Enough fuel id a.folders lt r) in
      (delete_folder_row id m, rw (e, delete_folder_tree) refl, delete_row-Ranked id m s)

-- If folders have ranks up to a bound, each above that of its parent, as in a table without cycles, then the deletion of
-- a folder of the account ends with success, with fuel for one step more than there are ranks from the folder's on.
pub delete_folder-ends :
    (owner : String) (d : String → ℕ) (top fuel now : ℕ) (id : String) (db : Db) (folder : Folder)
    → Ranked d top db.folders
    → find_folder (owned_by owner) db.folders id ≡ some folder
    → top < fuel + d id
    → (db' : Db) × (delete_folder fuel owner now id db ≡ some (ok true, db'))
unfolding delete_folder find_folder
delete_folder-ends owner d top fuel now id db folder r found lt =
    let enough : Enough owner d top fuel id = (
      ground (
        arith,
        find-All (λ f. ranked d top f ≡ true) (is_row (owned_by owner) id) db.folders folder r
            found,
        find-passes (is_row (owned_by owner) id) db.folders folder found,
        eq_iff folder.id id,
      ),
      lt,
    ) in
    let (m, e, s) = soft_delete_files_in_tree-ends owner d top fuel now id db r enough in
    let (z, e', s') = delete_folder_tree-ends owner d top fuel id m s enough in
    (z, rw (found, e, e', delete_folder) refl)
