-- ===== src/Tests/Files.antt =====
-- apps/api/src/resolvers/files.ts on a few files.
use ddrive.Prelude.{
  ◌*◌, ◌≡◌, refl, true, false, not, ◌&&◌, [], ◌∷◌, none, some, find, filter, str_eq,
}
use ddrive.Prelude.Tables.{update_many, delete_many}
use ddrive.Prelude.Texts.{codes, starts_with, strip_prefix}
use ddrive.Storage.Rows.{local, primary, ok}
use ddrive.Storage.Provider.{placement_from_row}
use ddrive.Database.Rows.{File, uploading, Share, Db}
use ddrive.Database.Cascades.{
  is_of_file, update_file, delete_file_row, delete_shares, delete_transports,
}
use ddrive.Database.Keys.{UniqueKeys}
use ddrive.Resolvers.Files.{
  owned_file, UploadedBlob, delete_file, commit_manifest, record_blobs, create_many,
}
use ddrive.Resolvers.Files.Isolation.{others, Step, Step-others}
use ddrive.Resolvers.Files.Trash.{
  deletions_of, delete_blobs_best_effort, purge_each, purge_rows, empty_trash, purge_file_record,
  is_trashed, restore_file, is_older_than, day_ms, purge_expired_trash,
}
use ddrive.Resolvers.Files.Trash.Purging.{file_id, purge_calls, purge_expired_trash-files}
use ddrive.Resolvers.Files.Trash.Purged.{Purged, purge_file_record-Purged}
use ddrive.Resolvers.Files.Trash.Restoring.{restore_file-delete_file}
use ddrive.Tests.Database.{photo, letter, copy_of_chunk, tables}

tables-UniqueKeys : UniqueKeys file_id tables.files
tables-UniqueKeys = (
  (λ k. refl, (λ k. absurd (let bad : false ≡ true = k in cc), tt)),
  ((λ k. absurd (let bad : false ≡ true = k in cc), (λ k. refl, tt)), tt),
)

photo_found : find (λ (h : File). str_eq h.id photo.id) tables.files ≡ some photo
unfolding find
photo_found = refl

one_call :
    purge_calls photo tables
    ≡ (local, primary, placement_from_row "f1:chunk:0" "u1" copy_of_chunk) ∷ []
unfolding filter deletions_of starts_with strip_prefix codes placement_from_row
one_call = refl

purge_file_record-Purged_example :
    ((purge_file_record photo tables).0 ≡ ok tt)
    × Purged photo tables (purge_file_record photo tables).1
purge_file_record-Purged_example = purge_file_record-Purged photo photo tables photo_found

abbrev old_trash : Db
old_trash = record tables { files = record photo { deleted_at = some 5 } ∷ letter ∷ [] }

old_trash-UniqueKeys : UniqueKeys file_id old_trash.files
old_trash-UniqueKeys = (
  (λ k. refl, (λ k. absurd (let bad : false ≡ true = k in cc), tt)),
  ((λ k. absurd (let bad : false ≡ true = k in cc), (λ k. refl, tt)), tt),
)

purge_expired_trash-files_example :
    (purge_expired_trash 30 2592000006 old_trash).1.files
    ≡ filter
        (λ (f : File). not (is_older_than (30 * day_ms) 2592000006 f.deleted_at))
        old_trash.files
purge_expired_trash-files_example =
    purge_expired_trash-files 30 2592000006 old_trash old_trash-UniqueKeys

only_letter :
    filter (λ (f : File). not (is_older_than (30 * day_ms) 2592000006 f.deleted_at)) old_trash.files
    ≡ letter ∷ []
unfolding filter
only_letter = refl

photo_owned : find (owned_file "u1" "f1") tables.files ≡ some photo
unfolding find
photo_owned = refl

restore_file-delete_file_example :
    ((delete_file "u1" "f1" 9 tables).0 ≡ ok true)
    × (find
          (λ (g : File). str_eq g.id "f1" && is_trashed "u1" g)
          (delete_file "u1" "f1" 9 tables).1.files
        ≡ some (record photo { deleted_at = some 9; updated_at = 9 }))
    × (filter
          (λ (s : Share). is_of_file "f1" s && str_eq s.owner_user_id "u1")
          (delete_file "u1" "f1" 9 tables).1.shares
        ≡ [])
    × ((restore_file "u1" "f1" 12 (delete_file "u1" "f1" 9 tables).1).0 ≡ ok true)
    × ((restore_file "u1" "f1" 12 (delete_file "u1" "f1" 9 tables).1).1.files
        ≡ update_many
            (λ (g : File). str_eq g.id "f1")
            (λ g. record g { updated_at = 12 })
            tables.files)
restore_file-delete_file_example =
    restore_file-delete_file "u1" "f1" 9 12 tables photo tables-UniqueKeys photo_owned refl refl

old_photo_only : (empty_trash "u1" old_trash).1.files ≡ letter ∷ []
unfolding empty_trash purge_each purge_file_record purge_rows delete_blobs_best_effort deletions_of
    delete_file_row delete_shares delete_transports delete_many filter find starts_with strip_prefix
    codes placement_from_row
old_photo_only = refl

Step-others_example : others "u1" (empty_trash "u1" old_trash).1.files ≡ others "u1" old_trash.files
Step-others_example =
    Step-others "u1" old_trash (empty_trash "u1" old_trash).1 old_trash-UniqueKeys Step.empties

abbrev uploading_tables : Db
uploading_tables = record tables { files = record photo { status = uploading } ∷ letter ∷ [] }

abbrev manifest : UploadedBlob
manifest = record {
  blob_id = "f1:manifest";
  storage_kind = local;
  storage_path = "p1";
  discord_message_id = none;
  discord_channel_id = none;
  webhook_id = none;
  size_bytes = 40;
  content_hash = none;
}

commit_runs :
    (commit_manifest
      (λ b k r. "p")
      []
      "u1"
      "f1"
      "f1:manifest"
      2
      1
      (manifest ∷ [])
      7
      uploading_tables).0
    ≡ ok true
unfolding commit_manifest update_file record_blobs create_many update_many find
commit_runs = refl
