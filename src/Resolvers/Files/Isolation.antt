-- ===== src/Resolvers/Files/Isolation.antt =====
-- apps/api/src/resolvers/files.ts: the files of other accounts under the operations of one.
use ddrive.Prelude.{
  ℕ, ◌≡◌, refl, sym, ap, ◌∙◌, subst, ◌⊎◌, inl, inr, Bool, true, false, not, ◌&&◌, List, [], ◌∷◌,
  ◌++◌, Option, none, some, str_eq_refl, String, arith, find, filter, str_eq, All, All-mono,
  Option-cases, eq_iff,
}
use ddrive.Prelude.Tables.{update_many, delete_many}
use ddrive.Storage.Rows.{ProviderKind}
use ddrive.Database.Rows.{File, stamped, Db}
use ddrive.Database.Cascades.{update_file, delete_shares}
use ddrive.Database.Keys.{
  UniqueKeys, unique-found, find-passes, filter-kept_update, filter-kept_delete,
}
use ddrive.Resolvers.Files.{
  UploadedBlob, PlacementIds, InitUpload, new_file, add_file, init_upload, owned_file, delete_file,
  move_file, set_file_preview, commit_manifest, record_blobs, finalize,
}
use ddrive.Resolvers.Files.Trash.{
  is_trashed, parent_left, restore_file, purge_file, purge_file_record, empty_trash,
}
use ddrive.Resolvers.Files.Emptying.{empty_trash-others}
use ddrive.Resolvers.Files.Trash.Purging.{file_id, purge_file_record-files}

abbrev pub others : String → List File → List File
others owner files = filter (λ (f : File). not (str_eq f.owner_user_id owner)) files

-- How an operation of an account on one of its files can leave the table of files.
data Touched (owner id : String) (files : List File) : List File → Type 0 where
  kept : Touched owner id files files
  updated :
      (q : File → Bool) (f : File) (g : File → File)
      → find q files ≡ some f
      → owned_file owner id f ≡ true
      → ((x : File) → (g x).owner_user_id ≡ x.owner_user_id)
      → Touched owner id files (update_many (λ (x : File). str_eq x.id id) g files)
  removed :
      (q : File → Bool) (f : File)
      → find q files ≡ some f
      → owned_file owner id f ≡ true
      → Touched owner id files (delete_many (λ (x : File). str_eq x.id id) files)

mine :
    (owner id : String) (q : File → Bool) (files : List File) (f : File)
    → UniqueKeys file_id files
    → find q files ≡ some f
    → owned_file owner id f ≡ true
    → All (λ r. str_eq r.id id ≡ true → str_eq r.owner_user_id owner ≡ true) files
mine owner id q files f unique found owned =
    All-mono (λ r. str_eq r.id f.id ≡ true → r ≡ f)
      (λ r. str_eq r.id id ≡ true → str_eq r.owner_user_id owner ≡ true)
      (λ r e k.
        let same = e (ground (arith, k, owned, eq_iff r.id id, eq_iff f.id id, eq_iff r.id f.id)) in
        rw same (ground (arith, owned)))
      files (unique-found file_id q files f unique found)

Touched-others :
    (owner id : String) (files files' : List File)
    → UniqueKeys file_id files
    → Touched owner id files files'
    → others owner files' ≡ others owner files
Touched-others owner id files files' unique kept = refl
Touched-others owner id files files' unique (updated q f g found owned keeps) =
    filter-kept_update (λ (x : File). not (str_eq x.owner_user_id owner))
      (λ (x : File). str_eq x.id id) g files
      (All-mono (λ (r : File). str_eq r.id id ≡ true → str_eq r.owner_user_id owner ≡ true)
        (λ r.
          str_eq r.id id ≡ true
          → (not (str_eq r.owner_user_id owner) ≡ false)
            × (not (str_eq (g r).owner_user_id owner) ≡ false))
        (λ r e k. (ground (arith, e k), ground (arith, e k, keeps r))) files
        (mine owner id q files f unique found owned))
Touched-others owner id files files' unique (removed q f found owned) =
    filter-kept_delete (λ (x : File). not (str_eq x.owner_user_id owner))
      (λ (x : File). str_eq x.id id) files
      (All-mono (λ (r : File). str_eq r.id id ≡ true → str_eq r.owner_user_id owner ≡ true)
        (λ r. str_eq r.id id ≡ true → not (str_eq r.owner_user_id owner) ≡ false)
        (λ r e k. ground (arith, e k)) files (mine owner id q files f unique found owned))

-- The operations of files.ts that an account calls and that write: from the beginning of an upload to
-- the emptying of the trash.
pub data Step (owner : String) (db : Db) : Db → Type 0 where
  begins :
      (id : String) (parent : Option String) (input : InitUpload) (now : ℕ)
      → Step owner db (init_upload id owner parent input now db).1
  deletes : (id : String) (now : ℕ) → Step owner db (delete_file owner id now db).1
  moves :
      (id : String) (parent : Option String) (now : ℕ)
      → Step owner db (move_file owner id parent now db).1
  previews :
      (id blob_id : String) (now : ℕ) → Step owner db (set_file_preview owner id blob_id now db).1
  commits :
      (id_of : PlacementIds) (kinds : List ProviderKind) (id manifest : String) (bytes chunks : ℕ)
      (blobs : List UploadedBlob) (now : ℕ)
      → Step owner db (commit_manifest id_of kinds owner id manifest bytes chunks blobs now db).1
  restores : (id : String) (now : ℕ) → Step owner db (restore_file owner id now db).1
  purges : (id : String) → Step owner db (purge_file owner id db).1
  empties : Step owner db (empty_trash owner db).1

others-append :
    (owner : String) (files : List File) (f : File)
    → str_eq f.owner_user_id owner ≡ true
    → others owner (files ++ f ∷ []) ≡ others owner files
unfolding filter
others-append owner [] f own = ground (arith, own)
others-append owner (g ∷ files) f own = ground (arith, others-append owner files f own)

init_upload-others :
    (owner id : String) (parent : Option String) (input : InitUpload) (now : ℕ) (db : Db)
    → others owner (init_upload id owner parent input now db).1.files ≡ others owner db.files
unfolding init_upload add_file new_file
init_upload-others owner id parent input now db =
    others-append owner db.files (new_file id owner parent input now false none none)
      (str_eq_refl owner)

module _ (owner id : String) (db : Db) where
  keeps_files : (db' : Db) → db'.files ≡ db.files → Touched owner id db.files db'.files
  keeps_files db' e = subst (Touched owner id db.files) (sym e) kept

  updates_file :
      (db' : Db) (f : File) (g : File → File)
      → find (owned_file owner id) db.files ≡ some f
      → ((x : File) → (g x).owner_user_id ≡ x.owner_user_id)
      → db'.files ≡ update_many (λ (x : File). str_eq x.id id) g db.files
      → Touched owner id db.files db'.files
  updates_file db' f g found keeps e = subst (Touched owner id db.files) (sym e) (
      updated (owned_file owner id) f g found (find-passes (owned_file owner id) db.files f found)
        keeps)

  delete_file-Touched : (now : ℕ) → Touched owner id db.files (delete_file owner id now db).1.files
  unfolding delete_file update_file delete_shares
  delete_file-Touched now = elim (Option-cases (find (owned_file owner id) db.files)) [
    | inl e ↦ keeps_files (delete_file owner id now db).1 (ground (arith, e))
    | inr (f, e) ↦
        updates_file (delete_file owner id now db).1 f
          (stamped now (λ x. record x { deleted_at = some now })) e (λ x. refl) (ground (arith, e))
  ]

  move_file-Touched :
      (parent : Option String) (now : ℕ)
      → Touched owner id db.files (move_file owner id parent now db).1.files
  unfolding move_file update_file
  move_file-Touched parent now = elim (Option-cases (find (owned_file owner id) db.files)) [
    | inl e ↦ keeps_files (move_file owner id parent now db).1 (ground (arith, e))
    | inr (f, e) ↦
        let split : ((move_file owner id parent now db).1.files ≡ db.files)
            ⊎ ((move_file owner id parent now db).1.files
                ≡ update_many (λ (x : File). str_eq x.id id)
                    (stamped now (λ x. record x { parent_folder_id = parent })) db.files) =
          ground (arith, e) in
        elim split [
          | inl same ↦ keeps_files (move_file owner id parent now db).1 same
          | inr new ↦ updates_file (move_file owner id parent now db).1 f _ e (λ x. refl) new
        ]
  ]

  set_file_preview-Touched :
      (blob_id : String) (now : ℕ)
      → Touched owner id db.files (set_file_preview owner id blob_id now db).1.files
  unfolding set_file_preview update_file
  set_file_preview-Touched blob_id now = elim (Option-cases (find (owned_file owner id) db.files)) [
    | inl e ↦ keeps_files (set_file_preview owner id blob_id now db).1 (ground (arith, e))
    | inr (f, e) ↦
        let split : ((set_file_preview owner id blob_id now db).1.files ≡ db.files)
            ⊎ ((set_file_preview owner id blob_id now db).1.files
                ≡ update_many (λ (x : File). str_eq x.id id)
                    (stamped now (λ x. record x { preview_blob_id = some blob_id })) db.files) =
          ground (arith, e) in
        elim split [
          | inl same ↦ keeps_files (set_file_preview owner id blob_id now db).1 same
          | inr new ↦
              updates_file (set_file_preview owner id blob_id now db).1 f _ e (λ x. refl) new
        ]
  ]

  commit_manifest-Touched :
      (id_of : PlacementIds) (kinds : List ProviderKind) (manifest : String) (bytes chunks : ℕ)
      (blobs : List UploadedBlob) (now : ℕ)
      → Touched owner id db.files
          (commit_manifest id_of kinds owner id manifest bytes chunks blobs now db).1.files
  unfolding commit_manifest update_file record_blobs
  commit_manifest-Touched id_of kinds manifest bytes chunks blobs now =
      elim (Option-cases (find (owned_file owner id) db.files)) [
        | inl e ↦
            keeps_files (commit_manifest id_of kinds owner id manifest bytes chunks blobs now db).1
              (ground (arith, e))
        | inr (f, e) ↦
            let split : ((commit_manifest id_of kinds owner id manifest bytes chunks blobs now
                    db).1.files
                  ≡ db.files)
                ⊎ ((commit_manifest id_of kinds owner id manifest bytes chunks blobs now db).1.files
                    ≡ update_many (λ (x : File). str_eq x.id id)
                        (stamped now (finalize manifest bytes chunks)) db.files) =
              ground (arith, e) in
            elim split [
              | inl same ↦
                  keeps_files
                    (commit_manifest id_of kinds owner id manifest bytes chunks blobs now db).1 same
              | inr new ↦
                  updates_file
                    (commit_manifest id_of kinds owner id manifest bytes chunks blobs now db).1 f _
                    e (λ x. refl) new
            ]
      ]

  abbrev trash_row : File → Bool
  trash_row f = str_eq f.id id && is_trashed owner f

  trash-owned : (f : File) → find trash_row db.files ≡ some f → owned_file owner id f ≡ true
  trash-owned f e = ground (arith, find-passes trash_row db.files f e)

  restore_file-Touched :
      (now : ℕ) → Touched owner id db.files (restore_file owner id now db).1.files
  unfolding restore_file update_file
  restore_file-Touched now = elim (Option-cases (find trash_row db.files)) [
    | inl e ↦ keeps_files (restore_file owner id now db).1 (ground (arith, e))
    | inr (f, e) ↦
        let new : (restore_file owner id now db).1.files
            ≡ update_many (λ (x : File). str_eq x.id id)
                (stamped now (λ x. record x {
                  deleted_at = none;
                  parent_folder_id = parent_left owner f.parent_folder_id db;
                }))
                db.files =
          ground (arith, e) in
        subst (Touched owner id db.files) (sym new)
          (updated trash_row f _ e (trash-owned f e) (λ x. refl))
  ]

  purge_file-Touched : Touched owner id db.files (purge_file owner id db).1.files
  unfolding purge_file
  purge_file-Touched = elim (Option-cases (find trash_row db.files)) [
    | inl e ↦ keeps_files (purge_file owner id db).1 (ground (arith, e))
    | inr (f, e) ↦
        let new : (purge_file owner id db).1.files ≡ (purge_file_record f db).1.files =
          ground (arith, e) in
        let same = (eq_iff f.id id).0 (ground (arith, trash-owned f e)) in
        subst (Touched owner id db.files)
          (sym (
            new
            ∙ (purge_file_record-files f db
                ∙ ap (λ x. delete_many (λ (g : File). str_eq g.id x) db.files) same)))
          (removed trash_row f e (trash-owned f e))
  ]

-- With unique identifiers, no operation of files.ts that an account calls, from the beginning of an
-- upload to the emptying of the trash, whatever identifiers it is given and whether it succeeds or
-- not, changes, adds or removes a file of another account.
pub Step-others :
    (owner : String) (db db' : Db)
    → UniqueKeys file_id db.files
    → Step owner db db'
    → others owner db'.files ≡ others owner db.files
Step-others owner db db' unique (begins id parent input now) =
    init_upload-others owner id parent input now db
Step-others owner db db' unique empties = empty_trash-others owner db unique
Step-others owner db db' unique (deletes id now) =
    Touched-others owner id db.files _ unique (delete_file-Touched owner id db now)
Step-others owner db db' unique (moves id parent now) =
    Touched-others owner id db.files _ unique (move_file-Touched owner id db parent now)
Step-others owner db db' unique (previews id blob_id now) =
    Touched-others owner id db.files _ unique (set_file_preview-Touched owner id db blob_id now)
Step-others owner db db' unique (commits id_of kinds id manifest bytes chunks blobs now) =
    Touched-others owner id db.files _ unique
      (commit_manifest-Touched owner id db id_of kinds manifest bytes chunks blobs now)
Step-others owner db db' unique (restores id now) =
    Touched-others owner id db.files _ unique (restore_file-Touched owner id db now)
Step-others owner db db' unique (purges id) =
    Touched-others owner id db.files _ unique (purge_file-Touched owner id db)
