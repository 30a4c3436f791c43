-- ===== src/Resolvers/FolderTrees/Kept.antt =====
-- apps/api/src/resolvers/folders.ts: the deletion of a folder loses no file that is not in the trash.
use ddrive.Prelude.{
  ℕ, zero, suc, ◌≡◌, sym, subst, inl, inr, Bool, true, false, List, [], ◌∷◌, Option, none, some,
  String, str_eq, map, filter, any, get_elem?, All, All-mono, Bool-cases, Option-cases, arith,
  eq_iff, str_eq_refl,
}
use ddrive.Prelude.Tables.{delete_many}
use ddrive.Storage.Rows.{Result, ok, err}
use ddrive.Resolvers.Folders.{Folder, owned_by, find_folder}
use ddrive.Database.Rows.{File, Db}
use ddrive.Database.Cascades.{delete_folder_row, delete_shares, detach}
use ddrive.Resolvers.FolderTrees.{
  each_folder, children, is_live_of, soft_delete_files_in_tree, delete_folder_tree, delete_folder,
}
use ddrive.Resolvers.FolderTrees.Marking.{
  Kept, Covered, Kept-trans, Marked-Kept, Covered-Kept, delete_folder_row-Kept,
  soft_delete_files_in_tree-Soft,
}

module _ (owner : String) where
  -- No folder has children that it had not before.
  Fewer : List Folder → List Folder → Type 0
  Fewer fs gs =
      (id c : String)
      → any (str_eq c) (children owner id gs) ≡ true
      → any (str_eq c) (children owner id fs) ≡ true

  children-delete_row :
      (id parent c : String) (gs : List Folder)
      → any (str_eq c) (
          children owner parent (
            map
              (λ (f : Folder). record f { parent_folder_id = detach f.parent_folder_id id })
              (delete_many (λ (f : Folder). str_eq f.id id) gs)))
        ≡ true
      → any (str_eq c) (children owner parent gs) ≡ true
  unfolding children filter delete_many
  children-delete_row id parent c [] h = h
  children-delete_row id parent c (g ∷ gs) h = elim (Option-cases g.parent_folder_id) [
    | inl t ↦ ground (arith, h, t, children-delete_row id parent c gs)
    | inr (p, t) ↦ ground (arith, h, t, children-delete_row id parent c gs)
  ]

  Fewer-delete_row : (id : String) (db : Db) → Fewer db.folders (delete_folder_row id db).folders
  unfolding Fewer delete_folder_row delete_shares
  Fewer-delete_row id db parent c h = children-delete_row id parent c db.folders h

  any-All :
      (P : String → Type 0) (ids : List String) (c : String)
      → All P ids
      → any (str_eq c) ids ≡ true
      → P c
  any-All P [] c h k = absurd (let bad : false ≡ true = k in cc)
  any-All P (x ∷ ids) c (p, h) k = elim (Bool-cases (str_eq c x)) [
    | inl t ↦ subst P (ground (arith, t, eq_iff c x)) p
    | inr t ↦ any-All P ids c h (ground (arith, k, t))
  ]

  All-any :
      (P : String → Type 0) (ids : List String)
      → ((c : String) → any (str_eq c) ids ≡ true → P c)
      → All P ids
  All-any P [] h = tt
  All-any P (x ∷ ids) h =
      (h x (ground (arith, str_eq_refl x)), All-any P ids (λ c k. h c (ground (arith, k))))

  -- What the deletion of folders does that have been covered.
  record Hard (a b : Db) : Type 0 where
    kept : Kept owner a b
    fewer : Fewer a.folders b.folders

  Hard-trans : (a b c : Db) → Hard a b → Hard b c → Hard a c
  unfolding Fewer
  Hard-trans a b c h k = record {
    kept = Kept-trans owner a b c h.kept k.kept;
    fewer = λ id x i. h.fewer id x (k.fewer id x i);
  }

  each_folder-Hard :
      (n : ℕ) (fs : List Folder) (f : String → Db → Option Db)
      → ((id : String) (a b : Db)
          → Covered owner n fs id a
          → Fewer fs a.folders
          → f id a ≡ some b
          → Hard a b)
      → (ids : List String) (a b : Db) → All (λ c. Covered owner n fs c a) ids
      → Fewer fs a.folders
      → each_folder f ids a ≡ some b
      → Hard a b
  unfolding Kept Fewer
  each_folder-Hard n fs f one [] a b cs fewer e =
      let same : a ≡ b = cc in
      subst (Hard a) same (record { kept = λ k x at live. at; fewer = λ id c k. k })
  each_folder-Hard n fs f one (id ∷ ids) a b (c, cs) fewer e = elim (Option-cases (f id a)) [
    | inl t ↦ absurd (let bad : none ≡ some b = rw (t, each_folder) at e in cc)
    | inr (m, t) ↦
        let first = one id a m c fewer t in
        let rest =
          each_folder-Hard n fs f one ids m b
            (All-mono (λ c. Covered owner n fs c a) (λ c. Covered owner n fs c m)
              (λ c k. Covered-Kept owner n fs c a m first.kept k) ids cs)
            (λ p x i. fewer p x (first.fewer p x i)) (rw (t, each_folder) at e) in
        Hard-trans a m b first rest
  ]

  delete_folder_tree-Hard :
      (n : ℕ) (fs : List Folder) (id : String) (a b : Db)
      → Covered owner n fs id a
      → Fewer fs a.folders
      → delete_folder_tree n owner id a ≡ some b
      → Hard a b
  unfolding delete_folder_tree Covered
  delete_folder_tree-Hard zero fs id a b c fewer e = absurd (let bad : none ≡ some b = e in cc)
  delete_folder_tree-Hard (suc n) fs id a b (m, cs) fewer e =
      elim (Option-cases
        (each_folder (delete_folder_tree n owner) (children owner id a.folders) a)) [
          | inl t ↦ absurd (let bad : none ≡ some b = rw (t, delete_folder_tree) at e in cc)
          | inr (x, t) ↦
              let below =
                each_folder-Hard n fs (delete_folder_tree n owner)
                  (λ c y z k f i. delete_folder_tree-Hard n fs c y z k f i)
                  (children owner id a.folders) a x
                  (All-any (λ c. Covered owner n fs c a) (children owner id a.folders)
                    (λ c i.
                      any-All (λ c. Covered owner n fs c a) (children owner id fs) c cs
                        ((unfold Fewer in fewer id c i))))
                  fewer t in
              let last : Hard x (delete_folder_row id x) = record {
                kept = delete_folder_row-Kept owner id x (Marked-Kept owner id a x below.kept m);
                fewer = Fewer-delete_row id x;
              } in
              let same : some (delete_folder_row id x) ≡ some b = rw (t, delete_folder_tree) at e in
              subst (Hard a) (let eq : delete_folder_row id x ≡ b = cc in eq)
                (Hard-trans a x (delete_folder_row id x) below last)
        ]

-- When a folder has been deleted with what is below it, every file of the account that is not in the trash
-- was there before, in the same folder and not in the trash, with nothing of it changed: no file is left behind that
-- has lost its folder.
pub delete_folder-live :
    (fuel : ℕ) (owner : String) (now : ℕ) (id : String) (db db' : Db) (r : Result Bool) (k : ℕ)
    (f : File)
    → delete_folder fuel owner now id db ≡ some (r, db')
    → get_elem? db'.files k ≡ some f
    → is_live_of owner f ≡ true
    → get_elem? db.files k ≡ some f
unfolding Kept delete_folder
delete_folder-live fuel owner now id db db' r k f e at live =
    elim (Option-cases (find_folder (owned_by owner) db.folders id)) [
      | inl t ↦
          let out : some (err "Folder not found", db) ≡ some (r, db') =
            rw (t, delete_folder) at e in
          subst (λ (x : Db). get_elem? x.files k ≡ some f) (let eq : db' ≡ db = cc in eq) at
      | inr (folder, t) ↦ elim (Option-cases (soft_delete_files_in_tree fuel owner now id db)) [
        | inl u ↦ absurd (let bad : none ≡ some (r, db') = rw (t, u, delete_folder) at e in cc)
        | inr (m, u) ↦ elim (Option-cases (delete_folder_tree fuel owner id m)) [
          | inl v ↦ absurd (let bad : none ≡ some (r, db') = rw (t, u, v, delete_folder) at e in cc)
          | inr (z, v) ↦
              let out : some (ok true, z) ≡ some (r, db') = rw (t, u, v, delete_folder) at e in
              let soft = soft_delete_files_in_tree-Soft owner fuel now id db m u in
              let hard =
                delete_folder_tree-Hard owner fuel db.folders id m z soft.covered.0
                  (unfold Fewer in
                    subst
                      (λ fs.
                        (p c : String)
                        → any (str_eq c) (children owner p fs) ≡ true
                        → any (str_eq c) (children owner p db.folders) ≡ true)
                      (sym soft.folders) (λ p c i. i))
                  v in
              Kept-trans owner db m z soft.kept hard.kept k f
                (subst (λ (x : Db). get_elem? x.files k ≡ some f) (let eq : db' ≡ z = cc in eq) at)
                live
        ]
      ]
    ]
