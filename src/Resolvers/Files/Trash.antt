-- ===== src/Resolvers/Files/Trash.antt =====
-- apps/api/src/resolvers/files.ts: the trash, and what is purged for good. An error of `pool.delete` is
-- only logged, so that the calls are recorded and their outcome is not.
pub mod Purging
pub mod Called
pub mod Purged
pub mod Restoring
use ddrive.Prelude.{
  ℕ, ◌+◌, ◌*◌, Bool, true, false, not, ◌&&◌, ◌||◌, List, [], ◌∷◌, ◌++◌, Option, none, some, String,
  map, ltb, max, str_eq, if◌then◌else◌, filter, find, any, length, flatten,
}
use mathlib.Core.List.{reverse}
use ddrive.Prelude.Sort.{sort_by}
use ddrive.Storage.Rows.{
  PoolRole, primary, PlacementStatus, pending, active, missing, modified, deleting, Placement,
  Transport, Result, ok, err, truthy,
}
use ddrive.Storage.Provider.{placement_from_row, placement_from_blob_record}
use ddrive.Resolvers.Folders.{owned_by, find_folder, opt_eq}
use ddrive.Database.Rows.{File, is_uploading, Deletion, Db}
use ddrive.Database.Actions.{
  Action, Done, pure, raise, gets, or_raise, ◌>>=◌, ◌>>◌, raise_if, modify,
}
use ddrive.Database.Cascades.{
  is_of_file, delete_shares, delete_transports, delete_file_row, update_file,
}
use ddrive.Resolvers.Files.{is_null, owned_file, has_prefix}

-- The placements that the query includes with a blob.
abbrev pub placements_of : Db → Transport → List Placement
placements_of db t = filter (λ (p : Placement). str_eq p.blob_id t.blob_id) db.placements

abbrev pub is_pending : PlacementStatus → Bool
is_pending pending = true
is_pending _ = false

-- `placement.status === "PENDING" && !placement.messageId`: nothing was written yet.
abbrev pub is_unwritten : Placement → Bool
is_unwritten p = is_pending p.status && not (truthy p.message_id)

abbrev deletion_of : Transport → Placement → Deletion
deletion_of t p = (p.provider, p.pool_role, placement_from_row t.blob_id t.owner_user_id p)

-- The calls of `pool.delete` for one blob: for each of its copies, or for the legacy columns of a blob
-- without placements.
unfoldable pub deletions_of : Transport → List Placement → List Deletion
deletions_of t [] = (t.storage_kind, primary, placement_from_blob_record t) ∷ []
deletions_of t (p ∷ ps) =
    map (deletion_of t) (filter (λ (q : Placement). not (is_unwritten q)) (p ∷ ps))

unfoldable pub delete_blobs_best_effort : List (Transport × List Placement) → Db → Db
unfolding deletions_of
delete_blobs_best_effort [] db = db
delete_blobs_best_effort ((t, ps) ∷ blobs) db =
    delete_blobs_best_effort blobs (record db { deletions = db.deletions ++ deletions_of t ps })

-- The blobs of a file: those whose name begins with its identifier, and its preview.
abbrev pub is_blob_of : File → Transport → Bool
is_blob_of f t =
    str_eq t.owner_user_id f.owner_user_id
    && (has_prefix f.id ":" t.blob_id
        || (truthy f.preview_blob_id && opt_eq (some t.blob_id) f.preview_blob_id))

abbrev pub blobs_of : File → Db → List Transport
blobs_of f db = filter (is_blob_of f) db.transports

abbrev pub blob_ids : List Transport → List String
blob_ids ts = map (λ (t : Transport). t.blob_id) ts

-- The transaction: without the row of the file it fails, and writes nothing.
unfoldable pub purge_rows : String → List String → Action Done
purge_rows id ids db = elim (find (λ (f : File). str_eq f.id id) db.files) [
  | none ↦ (err "Record to delete does not exist", db)
  | some f ↦ (ok tt, delete_file_row id (delete_shares (is_of_file id) (delete_transports ids db)))
]

unfoldable pub purge_file_record : File → Action Done
purge_file_record f db =
    let blobs = blobs_of f db in
    let db' =
      delete_blobs_best_effort (map (λ (t : Transport). (t, placements_of db t)) blobs) db in
    purge_rows f.id (blob_ids blobs) db'

abbrev pub is_trashed : String → File → Bool
is_trashed owner f = str_eq f.owner_user_id owner && not (is_null f.deleted_at)

abbrev date_or_zero : Option ℕ → ℕ
date_or_zero none = 0
date_or_zero (some t) = t

-- The trash, the newest first.
unfoldable pub get_trashed_files : String → Db → List File
get_trashed_files owner db =
    reverse (sort_by (λ (f : File). date_or_zero f.deleted_at) (filter (is_trashed owner) db.files))

abbrev pub require_trashed : String → String → Action File
require_trashed owner id =
    gets (λ (db : Db). find (λ (f : File). str_eq f.id id && is_trashed owner f) db.files) >>= λ f.
    or_raise f "File not found in trash"

-- The folder that a restored file comes to stand in: the old one, if it is still there.
abbrev pub parent_left : String → Option String → Db → Option String
parent_left owner none db = none
parent_left owner (some p) db =
    if truthy (some p) && is_null (find_folder (owned_by owner) db.folders p) then none else some p

unfoldable pub restore_file : String → String → ℕ → Action Bool
restore_file owner id now = do
  f ← require_trashed owner id
  parent ← gets (parent_left owner f.parent_folder_id)
  modify (update_file id now (λ g. record g { deleted_at = none; parent_folder_id = parent }))
  pure true

unfoldable pub purge_file : String → String → Action Bool
purge_file owner id = do f ← require_trashed owner id; purge_file_record f; pure true

-- The loop of `emptyTrash`, which the first error ends.
unfoldable pub purge_each : List File → Action Done
purge_each [] = pure tt
purge_each (f ∷ fs) = purge_file_record f >> purge_each fs

unfoldable pub empty_trash : String → Action ℕ
unfolding purge_each
empty_trash owner = do
  files ← gets (λ (db : Db). filter (is_trashed owner) db.files)
  purge_each files
  pure (length files)

-- The loops that go on past an error, and count the files that were purged.
unfoldable pub purge_counting : List File → Db → ℕ × Db
purge_counting [] db = (0, db)
purge_counting (f ∷ fs) db =
    let (r, db') = purge_file_record f db in
    let (n, db'') = purge_counting fs db' in elim r [ ok done ↦ (n + 1, db'') | err e ↦ (n, db'') ]

-- `deletedAt < cutoff`, for `cutoff = now - age`; null is never before it.
abbrev pub is_older_than : ℕ → ℕ → Option ℕ → Bool
is_older_than age now none = false
is_older_than age now (some t) = ltb (t + age) now

abbrev pub day_ms : ℕ
day_ms = 86400000

unfoldable pub purge_expired_trash : ℕ → ℕ → Db → ℕ × Db
unfolding purge_counting
purge_expired_trash retention_days now db =
    purge_counting
      (filter (λ (f : File). is_older_than (retention_days * day_ms) now f.deleted_at) db.files) db

abbrev minute_ms : ℕ
minute_ms = 60000

last_date : ℕ → List Transport → ℕ
last_date at [] = at
last_date at (t ∷ ts) = max t.created_at (last_date at ts)

-- `COALESCE(MAX(bt."createdAt"), c."createdAt")`.
last_activity : File → List Transport → ℕ
unfolding last_date
last_activity f [] = f.created_at
last_activity f (t ∷ ts) = last_date t.created_at ts

unfoldable pub find_stale_uploads : ℕ → ℕ → Db → List File
unfolding last_activity
find_stale_uploads stale_after_minutes now db =
    let age = stale_after_minutes * minute_ms in
    filter
      (λ (f : File).
        is_uploading f.status
        && (is_null f.deleted_at
            && (is_older_than age now (some f.created_at)
                && is_older_than age now (
                    some (
                      last_activity f (
                        filter (λ (t : Transport). has_prefix f.id ":" t.blob_id)
                          db.transports))))))
      db.files

-- A file is looked at again before it is purged, and counted if it was.
unfoldable pub purge_if_stale : File → Db → ℕ × Db
purge_if_stale f db = elim (find (λ (g : File). str_eq g.id f.id) db.files) [
  | none ↦ (0, db)
  | some g ↦
      let (r, db') = purge_file_record g db in
      if is_uploading g.status && is_null g.deleted_at
      then elim r [ ok done ↦ (1, db') | err e ↦ (0, db') ]
      else (0, db)
]

unfoldable pub purge_stale : List File → Db → ℕ × Db
unfolding purge_if_stale
purge_stale [] db = (0, db)
purge_stale (f ∷ fs) db =
    let (k, db') = purge_if_stale f db in let (n, db'') = purge_stale fs db' in (k + n, db'')

unfoldable pub purge_stale_uploads : ℕ → ℕ → Db → ℕ × Db
unfolding purge_stale
purge_stale_uploads stale_after_minutes now db =
    purge_stale (find_stale_uploads stale_after_minutes now db) db
