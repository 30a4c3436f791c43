-- ===== src/Resolvers/Files/Trash/Purging.antt =====
-- apps/api/src/resolvers/files.ts: what a purge leaves, and the sweep of the trash.
use ddrive.Prelude.{
  ℕ, ◌*◌, ◌≡◌, refl, sym, ap, ◌∙◌, inl, inr, Bool, false, not, List, [], ◌∷◌, ◌++◌, String, map,
  find, filter, flatten, str_eq, Option-cases, append_assoc, append-nil,
}
use ddrive.Prelude.Tables.{delete_many}
use ddrive.Storage.Rows.{Placement, Transport, Result-cases}
use ddrive.Database.Rows.{File, Deletion, Db}
use ddrive.Database.Cascades.{is_in, delete_shares, delete_transports, delete_file_row}
use ddrive.Database.Keys.{
  UniqueKeys, delete_many-none, delete_many_twice, delete_many-filter, keys-filter_unique,
}
use ddrive.Resolvers.Files.Trash.{
  blob_ids, placements_of, deletions_of, delete_blobs_best_effort, blobs_of, purge_rows,
  purge_file_record, purge_counting, is_older_than, day_ms, purge_expired_trash,
}

abbrev pub file_id : File → String
file_id f = f.id

-- The tables but for the record of the calls.
delete_blobs_best_effort-tables :
    (blobs : List (Transport × List Placement)) (db : Db)
    → delete_blobs_best_effort blobs db ≡ record db {
      deletions =
          db.deletions
          ++ flatten (map (λ (b : Transport × List Placement). deletions_of b.0 b.1) blobs);
    }
unfolding delete_blobs_best_effort
delete_blobs_best_effort-tables [] db =
    ap (λ (d : List Deletion). record db { deletions = d }) (sym (append-nil db.deletions))
delete_blobs_best_effort-tables ((t, ps) ∷ blobs) db =
    delete_blobs_best_effort-tables blobs
      (record db { deletions = db.deletions ++ deletions_of t ps })
    ∙ ap (λ (d : List Deletion). record db { deletions = d })
        (append_assoc db.deletions (deletions_of t ps)
          (flatten (map (λ (b : Transport × List Placement). deletions_of b.0 b.1) blobs)))

-- The calls of `pool.delete` that the purge of a file makes.
abbrev pub purge_calls : File → Db → List Deletion
purge_calls f db = flatten (
    map (λ (b : Transport × List Placement). deletions_of b.0 b.1)
      (map (λ (t : Transport). (t, placements_of db t)) (blobs_of f db)))

abbrev called : File → Db → Db
called f db = record db { deletions = db.deletions ++ purge_calls f db }

pub purge_file_record-rows :
    (f : File) (db : Db)
    → purge_file_record f db ≡ purge_rows f.id (blob_ids (blobs_of f db)) (called f db)
unfolding purge_file_record
purge_file_record-rows f db = ap (purge_rows f.id (blob_ids (blobs_of f db))) (
    delete_blobs_best_effort-tables
      (map (λ (t : Transport). (t, placements_of db t)) (blobs_of f db)) db)

purge_rows-files :
    (id : String) (ids : List String) (db : Db)
    → (purge_rows id ids db).1.files ≡ delete_many (λ (g : File). str_eq g.id id) db.files
unfolding purge_rows delete_file_row delete_shares delete_transports
purge_rows-files id ids db = elim (Option-cases (find (λ (g : File). str_eq g.id id) db.files)) [
  | inl e ↦ rw (e, purge_rows) (sym (delete_many-none (λ (g : File). str_eq g.id id) db.files e))
  | inr (f, e) ↦ rw (e, purge_rows) refl
]

-- A purge takes the row of the file away, whether the transaction finds it or not.
pub purge_file_record-files :
    (f : File) (db : Db)
    → (purge_file_record f db).1.files ≡ delete_many (λ (g : File). str_eq g.id f.id) db.files
purge_file_record-files f db =
    ap (λ r. r.1.files) (purge_file_record-rows f db)
    ∙ purge_rows-files f.id (blob_ids (blobs_of f db)) (called f db)

never : (files : List File) → delete_many (λ (g : File). false) files ≡ files
unfolding delete_many
never [] = refl
never (f ∷ files) = ap (λ fs. f ∷ fs) (never files)

purge_counting-files :
    (fs : List File) (db : Db)
    → (purge_counting fs db).1.files
      ≡ delete_many (λ (g : File). is_in (map file_id fs) g.id) db.files
unfolding purge_counting
purge_counting-files [] db = sym (never db.files)
purge_counting-files (f ∷ fs) db =
    let gone : (purge_counting fs (purge_file_record f db).1).1.files
        ≡ delete_many (λ (g : File). is_in (map file_id (f ∷ fs)) g.id) db.files =
      purge_counting-files fs (purge_file_record f db).1
      ∙ (ap (delete_many (λ (g : File). is_in (map file_id fs) g.id)) (purge_file_record-files f db)
          ∙ delete_many_twice (λ (g : File). is_in (map file_id fs) g.id)
              (λ (g : File). str_eq g.id f.id) db.files) in
    elim (Result-cases (purge_file_record f db).0) [
      | inl (done, e) ↦ rw (purge_counting, e) gone
      | inr (m, e) ↦ rw (purge_counting, e) gone
    ]

-- With unique identifiers, the sweep of the trash leaves exactly the files that have not been in it for
-- longer than the retention: none that expired remains, and no other goes.
pub purge_expired_trash-files :
    (retention_days now : ℕ) (db : Db)
    → UniqueKeys file_id db.files
    → (purge_expired_trash retention_days now db).1.files
      ≡ filter
          (λ (f : File). not (is_older_than (retention_days * day_ms) now f.deleted_at))
          db.files
unfolding purge_expired_trash
purge_expired_trash-files retention_days now db unique =
    let old : File → Bool = λ f. is_older_than (retention_days * day_ms) now f.deleted_at in
    purge_counting-files (filter old db.files) db
    ∙ delete_many-filter (λ (g : File). is_in (map file_id (filter old db.files)) g.id) old db.files
        (keys-filter_unique file_id old db.files unique)
