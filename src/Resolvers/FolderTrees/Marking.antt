-- ===== src/Resolvers/FolderTrees/Marking.antt =====
-- apps/api/src/resolvers/folders.ts: what the soft deletion of the files below a folder leaves.
use ddrive.Prelude.{
  ℕ, zero, suc, ◌≡◌, refl, sym, ap, subst, ◌∙◌, inl, inr, Bool, true, false, List, [], ◌∷◌, Option,
  none, some, String, map, get_elem?, if◌then◌else◌, All, All-mono, Bool-cases, Option-cases, arith,
}
use ddrive.Prelude.Tables.{update_many}
use ddrive.Resolvers.Folders.{Folder, opt_eq}
use ddrive.Database.Rows.{File, stamped, Db}
use ddrive.Database.Cascades.{delete_folder_row, delete_shares, detach}
use ddrive.Resolvers.FolderTrees.{
  each_folder, children, is_live_of, stands_in, mark_deleted, soft_delete_files_in_tree,
}

get_elem?-update_many {ℓ} :
    {Row : Type ℓ} (p : Row → Bool) (g : Row → Row) (rows : List Row) (k : ℕ) (f : Row)
    → get_elem? (update_many p g rows) k ≡ some f
    → (r : Row) × (get_elem? rows k ≡ some r) × (f ≡ (if p r then g r else r))
unfolding update_many
get_elem?-update_many p g [] k f e = absurd (let bad : none ≡ some f = e in cc)
get_elem?-update_many p g (r ∷ rows) zero f e =
    (r, refl, (let same : some (if p r then g r else r) ≡ some f = e in cc))
get_elem?-update_many p g (r ∷ rows) (suc k) f e = get_elem?-update_many p g rows k f e

get_elem?-map {ℓ κ} :
    {A : Type ℓ} {B : Type κ} (g : A → B) (xs : List A) (k : ℕ) (f : B)
    → get_elem? (map g xs) k ≡ some f
    → (a : A) × (get_elem? xs k ≡ some a) × (f ≡ g a)
get_elem?-map g [] k f e = absurd (let bad : none ≡ some f = e in cc)
get_elem?-map g (x ∷ xs) zero f e = (x, refl, (let same : some (g x) ≡ some f = e in cc))
get_elem?-map g (x ∷ xs) (suc k) f e = get_elem?-map g xs k f e

-- Every file of the account that is not in the trash afterwards stands there before, as it is.
unfoldable pub Kept : String → Db → Db → Type 0
Kept owner db db' =
    (k : ℕ) (f : File)
    → get_elem? db'.files k ≡ some f
    → is_live_of owner f ≡ true
    → get_elem? db.files k ≡ some f

-- No file of the account that is not in the trash stands in a folder.
unfoldable pub Marked : String → String → Db → Type 0
Marked owner id db =
    (k : ℕ) (f : File)
    → get_elem? db.files k ≡ some f
    → is_live_of owner f ≡ true
    → opt_eq f.parent_folder_id (some id) ≡ false

module _ (owner : String) where
  pub Kept-trans : (a b c : Db) → Kept owner a b → Kept owner b c → Kept owner a c
  unfolding Kept
  Kept-trans a b c h k i f e live = h i f (k i f e live) live

  pub Marked-Kept :
      (id : String) (a b : Db) → Kept owner a b → Marked owner id a → Marked owner id b
  unfolding Kept Marked
  Marked-Kept id a b h m i f e live = m i f (h i f e live) live

  pub mark_deleted-Kept :
      (now : ℕ) (id : String) (db : Db) → Kept owner db (mark_deleted owner now id db)
  unfolding Kept mark_deleted
  mark_deleted-Kept now id db k f e live =
      let (r, at, same) =
        get_elem?-update_many (stands_in owner id)
          (stamped now (λ f. record f { deleted_at = some now })) db.files k f e in
      elim (Bool-cases (stands_in owner id r)) [
        | inl t ↦ absurd (ground (arith, same, t, live))
        | inr t ↦ at ∙ ap some (sym (ground (arith, same, t)))
      ]

  mark_deleted-Marked :
      (now : ℕ) (id : String) (db : Db) → Marked owner id (mark_deleted owner now id db)
  unfolding Marked mark_deleted
  mark_deleted-Marked now id db k f e live =
      let (r, at, same) =
        get_elem?-update_many (stands_in owner id)
          (stamped now (λ f. record f { deleted_at = some now })) db.files k f e in
      elim (Bool-cases (stands_in owner id r)) [
        | inl t ↦ absurd (ground (arith, same, t, live))
        | inr t ↦ ground (arith, same, t, live)
      ]

  pub delete_folder_row-Kept :
      (id : String) (db : Db) → Marked owner id db → Kept owner db (delete_folder_row id db)
  unfolding Kept Marked delete_folder_row delete_shares
  delete_folder_row-Kept id db m k f e live =
      let (r, at, same) =
        get_elem?-map (λ (x : File). record x { parent_folder_id = detach x.parent_folder_id id })
          db.files k f e in
      let elsewhere = m k r at (ground (arith, same, live)) in
      let stays : detach r.parent_folder_id id ≡ r.parent_folder_id = ground (arith, elsewhere) in
      let f_is : f ≡ r = same ∙ ap (λ x. record r { parent_folder_id = x }) stays in
      at ∙ ap some (sym f_is)

  -- The folders that the soft deletion has been to, down to a depth of the table.
  unfoldable pub Covered : ℕ → List Folder → String → Db → Type 0
  Covered zero fs id db = Unit
  Covered (suc n) fs id db =
      Marked owner id db × All (λ c. Covered n fs c db) (children owner id fs)

  pub Covered-Kept :
      (n : ℕ) (fs : List Folder) (id : String) (a b : Db)
      → Kept owner a b
      → Covered n fs id a
      → Covered n fs id b
  unfolding Covered
  Covered-Kept zero fs id a b h c = tt
  Covered-Kept (suc n) fs id a b h (m, cs) = (
    Marked-Kept id a b h m,
    All-mono (λ c. Covered n fs c a) (λ c. Covered n fs c b) (λ c k. Covered-Kept n fs c a b h k)
        (children owner id fs) cs,
  )

  -- What a soft deletion does, for one folder and for a list.
  pub record Soft (n : ℕ) (ids : List String) (a b : Db) : Type 0 where
    pub kept : Kept owner a b
    pub folders : b.folders ≡ a.folders
    pub covered : All (λ c. Covered n a.folders c b) ids

  each_folder-Soft :
      (n : ℕ) (f : String → Db → Option Db)
      → ((id : String) (a b : Db) → f id a ≡ some b → Soft n (id ∷ []) a b)
      → (ids : List String) (a b : Db) → each_folder f ids a ≡ some b
      → Soft n ids a b
  unfolding Kept
  each_folder-Soft n f one [] a b e =
      let same : a ≡ b = cc in
      subst (Soft n [] a) same (record { kept = λ k x at live. at; folders = refl; covered = tt })
  each_folder-Soft n f one (id ∷ ids) a b e = elim (Option-cases (f id a)) [
    | inl t ↦ absurd (let bad : none ≡ some b = rw (t, each_folder) at e in cc)
    | inr (m, t) ↦
        let first = one id a m t in
        let rest = each_folder-Soft n f one ids m b (rw (t, each_folder) at e) in
        record {
          kept = Kept-trans a m b first.kept rest.kept;
          folders = rest.folders ∙ first.folders;
          covered = (
            Covered-Kept n a.folders id m b rest.kept first.covered.0,
            subst (λ fs. All (λ c. Covered n fs c b) ids) first.folders rest.covered,
          );
        }
  ]

  pub soft_delete_files_in_tree-Soft :
      (n now : ℕ) (id : String) (a b : Db)
      → soft_delete_files_in_tree n owner now id a ≡ some b
      → Soft n (id ∷ []) a b
  unfolding soft_delete_files_in_tree Covered
  soft_delete_files_in_tree-Soft zero now id a b e = absurd (let bad : none ≡ some b = e in cc)
  soft_delete_files_in_tree-Soft (suc n) now id a b e =
      let m = mark_deleted owner now id a in
      let same_folders : m.folders ≡ a.folders = unfold mark_deleted in refl in
      let below =
        each_folder-Soft n (soft_delete_files_in_tree n owner now)
          (λ c x y k. soft_delete_files_in_tree-Soft n now c x y k) (children owner id m.folders) m
          b e in
      record {
        kept = Kept-trans a m b (mark_deleted-Kept now id a) below.kept;
        folders = below.folders ∙ same_folders;
        covered = (
          (
            Marked-Kept id m b below.kept (mark_deleted-Marked now id a),
            subst (λ fs. All (λ c. Covered n fs c b) (children owner id fs)) same_folders
                below.covered,
          ),
          tt,
        );
      }
