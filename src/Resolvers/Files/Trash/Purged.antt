-- ===== src/Resolvers/Files/Trash/Purged.antt =====
-- apps/api/src/resolvers/files.ts, `purgeFileRecord`: what it leaves in the tables.
use ddrive.Prelude.{
  ◌≡◌, ◌≢◌, ◌↔◌, refl, sym, ap, subst, ◌∙◌, inl, inr, Bool, true, false, List, ◌++◌, some, String,
  find, str_eq, arith, Bool-cases, Option-cases, eq_iff,
}
use ddrive.Prelude.Among.{
  Among, filter-Among, Among-filter, delete_many-Among, Among-delete_many, map-Among, Among-map,
  any-Among, Among-any,
}
use ddrive.Prelude.Tables.{delete_many}
use ddrive.Storage.Rows.{Placement, Transport, ok}
use ddrive.Database.Rows.{File, Share, Deletion, Db}
use ddrive.Database.Cascades.{is_in, is_of_file, delete_shares, delete_transports, delete_file_row}
use ddrive.Resolvers.Files.Trash.{is_blob_of, blobs_of, blob_ids, purge_rows, purge_file_record}
use ddrive.Resolvers.Files.Trash.Purging.{purge_calls, purge_file_record-rows}
use ddrive.Resolvers.Files.Trash.Called.{
  BlobOf, Called, is_blob_of-BlobOf, BlobOf-is_blob_of, purge_calls-Called,
}

-- An identifier that a blob of the file has.
abbrev pub Taken : File → Db → String → Type 0
Taken f db id = (t : Transport) × Among t db.transports × BlobOf f t × (t.blob_id ≡ id)

Taken-is_in :
    (f : File) (db : Db) (id : String) → Taken f db id → is_in (blob_ids (blobs_of f db)) id ≡ true
Taken-is_in f db id (t, m, b, same) = Among-any id (blob_ids (blobs_of f db)) (
    subst (λ x. Among x (blob_ids (blobs_of f db))) same
      (Among-map (λ (t : Transport). t.blob_id) t (blobs_of f db)
        (Among-filter t (is_blob_of f) db.transports m (BlobOf-is_blob_of f t b))))

is_in-Taken :
    (f : File) (db : Db) (id : String) → is_in (blob_ids (blobs_of f db)) id ≡ true → Taken f db id
is_in-Taken f db id e =
    let (t, mine, same) =
      map-Among (λ (t : Transport). t.blob_id) id (blobs_of f db)
        (any-Among id (blob_ids (blobs_of f db)) e) in
    let (m, b) = filter-Among t (is_blob_of f) db.transports mine in
    (t, m, is_blob_of-BlobOf f t b, sym same)

-- What a deletion of the rows with a property leaves.
delete_many-left :
    {Row : Type 0} (p : Row → Bool) (P : Row → Type 0) (rows : List Row) (r : Row)
    → ((x : Row) → P x → p x ≡ true)
    → ((x : Row) → p x ≡ true → P x)
    → Among r (delete_many p rows) ↔ (Among r rows × ¬ P r)
delete_many-left p P rows r into out = (
  λ m.
      let (k, e) = delete_many-Among r p rows m in
      (k, λ h. let bad : true ≡ false = sym (into r h) ∙ e in absurd (cc)),
  λ (k : Among r rows × ¬ P r).
      Among-delete_many r p rows k.0
        (elim (Bool-cases (p r)) [ inl e ↦ absurd (k.1 (out r e)) | inr e ↦ e ]),
)

of_file-eq : (id : String) (s : Share) → is_of_file id s ≡ true → s.file_id ≡ some id
of_file-eq id s e = elim (Option-cases s.file_id) [
  | inl k ↦ absurd (ground (arith, e, k))
  | inr (j, k) ↦ k ∙ ap some ((eq_iff j id).0 (ground (arith, e, k)))
]

eq-of_file : (id : String) (s : Share) → s.file_id ≡ some id → is_of_file id s ≡ true
eq-of_file id s e = ground (arith, e, (eq_iff id id).1 refl)

-- The shares are deleted by the call, and again with the row.
shares_left :
    (f : File) (db : Db) (s : Share)
    → Among s (delete_many (is_of_file f.id) (delete_many (is_of_file f.id) db.shares))
      ↔ (Among s db.shares × (s.file_id ≢ some f.id))
shares_left f db s =
    let once =
      delete_many-left (is_of_file f.id) (λ s. s.file_id ≡ some f.id) db.shares s (eq-of_file f.id)
        (of_file-eq f.id) in
    let twice =
      delete_many-left (is_of_file f.id) (λ s. s.file_id ≡ some f.id)
        (delete_many (is_of_file f.id) db.shares) s (eq-of_file f.id) (of_file-eq f.id) in
    (
      λ m. once.0 (twice.0 m).0,
      λ (m : Among s db.shares × (s.file_id ≢ some f.id)). twice.1 (once.1 m, m.1),
    )

-- What a purge of a file leaves of the tables.
pub record Purged (f : File) (db db' : Db) : Type 0 where
  calls :
      (made : List Deletion) × (db'.deletions ≡ db.deletions ++ made)
      × ((d : Deletion) → Among d made ↔ Called f db d)
  transports :
      (t : Transport) → Among t db'.transports ↔ (Among t db.transports × ¬ Taken f db t.blob_id)
  placements :
      (p : Placement) → Among p db'.placements ↔ (Among p db.placements × ¬ Taken f db p.blob_id)
  shares : (s : Share) → Among s db'.shares ↔ (Among s db.shares × (s.file_id ≢ some f.id))
  files : (g : File) → Among g db'.files ↔ (Among g db.files × (g.id ≢ f.id))

-- The purge of a file whose row is there succeeds. It calls `pool.delete` for what was written of each of
-- the file's blobs, those of its owner that are named after it or are its preview: for each placement
-- that is not PENDING or has a message, or for the blob's own columns where it has no placement; and for
-- nothing else. It leaves exactly the blobs and placements that do not have the identifier of such a
-- blob, the shares of other files, and the other files.
pub purge_file_record-Purged :
    (f g : File) (db : Db)
    → find (λ (h : File). str_eq h.id f.id) db.files ≡ some g
    → ((purge_file_record f db).0 ≡ ok tt) × Purged f db (purge_file_record f db).1
unfolding purge_rows delete_file_row delete_shares delete_transports
purge_file_record-Purged f g db there =
    rw (purge_file_record-rows f db, there, purge_rows)
      (
        refl,
        record {
          calls = (purge_calls f db, refl, purge_calls-Called f db);
          transports = λ t.
              delete_many-left (λ (t : Transport). is_in (blob_ids (blobs_of f db)) t.blob_id)
                (λ t. Taken f db t.blob_id) db.transports t (λ x. Taken-is_in f db x.blob_id)
                (λ x. is_in-Taken f db x.blob_id);
          placements = λ p.
              delete_many-left (λ (p : Placement). is_in (blob_ids (blobs_of f db)) p.blob_id)
                (λ p. Taken f db p.blob_id) db.placements p (λ x. Taken-is_in f db x.blob_id)
                (λ x. is_in-Taken f db x.blob_id);
          shares = λ s. shares_left f db s;
          files = λ h.
              delete_many-left (λ (h : File). str_eq h.id f.id) (λ h. h.id ≡ f.id) db.files h
                (λ x. (eq_iff x.id f.id).1) (λ x. (eq_iff x.id f.id).0);
        },
      )
