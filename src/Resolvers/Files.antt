-- ===== src/Resolvers/Files.antt =====
-- apps/api/src/resolvers/files.ts: the life of a file, from the start of its upload to the purge.
-- `new Date()`, the identifiers that the database makes up, the system's user and the kinds of the
-- configured replica pools are arguments. The event that plugins get and the thumbnail, which are
-- started and not waited for, are left out.
pub mod Trash
pub mod Anonymous
pub mod Health
pub mod Emptying
pub mod Isolation
pub mod Committing
use ddrive.Prelude.{
  ℕ, ◌+◌, ◌-◌, ◌*◌, Bool, true, false, not, ◌&&◌, ◌||◌, List, [], ◌∷◌, ◌++◌, Option, none, some,
  String, map, ltb, str_eq, if◌then◌else◌, filter, find, any, length, flatten,
}
use mathlib.Core.List.{reverse}
use ddrive.Prelude.Sort.{sort_by}
use ddrive.Prelude.Tables.{update_many}
use ddrive.Prelude.Texts.{codes, starts_with}
use ddrive.Storage.Rows.{
  ProviderKind, same_kind, PoolRole, primary, replica, is_primary, PlacementStatus, pending, active,
  missing, modified, Placement, Transport, Result, ok, err, truthy,
}
use ddrive.Resolvers.Folders.{Folder, owned_by, find_folder, opt_eq}
use ddrive.Handlers.Stream.{parse_chunk_index}
use ddrive.Database.Rows.{File, FileStatus, uploading, ready, is_uploading, is_ready, Share, Db}
use ddrive.Database.Actions.{
  Action, Done, pure, raise, gets, or_raise, ◌>>=◌, ◌>>◌, raise_if, modify,
}
use ddrive.Database.Cascades.{is_of_file, delete_shares, update_file}

-- `InitUploadRequest`.
pub record InitUpload : Type 0 where
  pub name : Option String
  pub mime_type : Option String
  pub total_bytes : ℕ
  pub chunk_count : ℕ

abbrev pub is_null {ℓ} : {A : Type ℓ} → Option A → Bool
is_null none = true
is_null (some a) = false

abbrev pub add_file : File → Db → Db
add_file f db = record db { files = db.files ++ f ∷ [] }

-- The row of a file whose upload begins.
abbrev pub new_file :
    String → String → Option String → InitUpload → ℕ → Bool → Option String → Option ℕ → File
new_file id owner parent input now anonymous session expires_at = record {
  id = id;
  owner_user_id = owner;
  parent_folder_id = parent;
  name = input.name;
  mime_type = input.mime_type;
  primary_manifest_blob_id = none;
  preview_blob_id = none;
  thumbnail_blob_id = none;
  poster_blob_id = none;
  status = uploading;
  total_bytes = input.total_bytes;
  chunk_count = input.chunk_count;
  created_at = now;
  updated_at = now;
  deleted_at = none;
  is_anonymous = anonymous;
  anon_session_id = session;
  expires_at = expires_at;
}

unfoldable pub init_upload : String → String → Option String → InitUpload → ℕ → Action String
init_upload id owner parent input now = do
  modify (add_file (new_file id owner parent input now false none none))
  pure id

abbrev pub owned_file : String → String → File → Bool
owned_file owner id f = str_eq f.id id && str_eq f.owner_user_id owner

-- `db.file.findFirst({ where: { id, ownerUserId } })`, and the error without one.
abbrev pub require_file : String → String → Action File
require_file owner id =
    gets (λ (db : Db). find (owned_file owner id) db.files) >>= λ f. or_raise f "File not found"

abbrev pub find_transport : String → Db → Option Transport
find_transport blob_id db = find (λ (t : Transport). str_eq t.blob_id blob_id) db.transports

abbrev is_owned_transport : String → Option Transport → Bool
is_owned_transport owner none = false
is_owned_transport owner (some t) = str_eq t.owner_user_id owner

unfoldable pub set_file_preview : String → String → String → ℕ → Action Bool
set_file_preview owner id preview_blob_id now = do
  require_file owner id
  blob ← gets (find_transport preview_blob_id)
  raise_if (not (is_owned_transport owner blob)) "Preview blob not found"
  modify (update_file id now (λ f. record f { preview_blob_id = some preview_blob_id }))
  pure true

-- `UploadedBlobTransportInput`.
pub record UploadedBlob : Type 0 where
  pub blob_id : String
  pub storage_kind : ProviderKind
  pub storage_path : String
  pub discord_message_id : Option String
  pub discord_channel_id : Option String
  pub webhook_id : Option String
  pub size_bytes : ℕ
  pub content_hash : Option String

abbrev pub new_transport : String → ℕ → UploadedBlob → Transport
new_transport owner now b = record {
  blob_id = b.blob_id;
  owner_user_id = owner;
  storage_kind = b.storage_kind;
  storage_path = b.storage_path;
  discord_message_id = b.discord_message_id;
  discord_channel_id = b.discord_channel_id;
  webhook_id = b.webhook_id;
  size_bytes = b.size_bytes;
  content_hash = b.content_hash;
  health_status = none;
  health_checked_at = none;
  created_at = now;
}

-- The identifiers of placements that the database makes up are `id_of` of the blob, kind and role.
abbrev pub PlacementIds : Type 0
PlacementIds = String → ProviderKind → PoolRole → String

abbrev pub primary_placement : PlacementIds → ℕ → UploadedBlob → Placement
primary_placement id_of now b = record {
  id = id_of b.blob_id b.storage_kind primary;
  blob_id = b.blob_id;
  provider = b.storage_kind;
  pool_role = primary;
  status = active;
  storage_path = b.storage_path;
  message_id = b.discord_message_id;
  location_id = b.discord_channel_id;
  sender_id = b.webhook_id;
  attempt_count = 0;
  last_error = none;
  next_attempt_at = none;
  created_at = now;
  activated_at = some now;
  health_checked_at = none;
}

abbrev pub replica_placement : PlacementIds → ℕ → String → ProviderKind → Placement
replica_placement id_of now blob_id kind = record {
  id = id_of blob_id kind replica;
  blob_id = blob_id;
  provider = kind;
  pool_role = replica;
  status = pending;
  storage_path = "pending://replica";
  message_id = none;
  location_id = none;
  sender_id = none;
  attempt_count = 0;
  last_error = none;
  next_attempt_at = none;
  created_at = now;
  activated_at = none;
  health_checked_at = none;
}

-- `createMany({ skipDuplicates: true })`: one after another, a row whose key is there is left out.
unfoldable pub create_many {ℓ} :
    {Row : Type ℓ} → (Row → Row → Bool) → List Row → List Row → List Row
create_many same [] table = table
create_many same (r ∷ rs) table =
    create_many same rs (if any (same r) table then table else table ++ r ∷ [])

abbrev pub same_transport : Transport → Transport → Bool
same_transport a b = str_eq a.blob_id b.blob_id

abbrev same_role : PoolRole → PoolRole → Bool
same_role primary primary = true
same_role replica replica = true
same_role _ _ = false

-- `@@unique([blobId, provider, poolRole])`.
abbrev pub same_placement : Placement → Placement → Bool
same_placement a b =
    str_eq a.blob_id b.blob_id
    && (same_kind a.provider b.provider && same_role a.pool_role b.pool_role)

abbrev replicas_of : PlacementIds → ℕ → List ProviderKind → UploadedBlob → List Placement
replicas_of id_of now kinds b = map (replica_placement id_of now b.blob_id) kinds

-- What the transaction of `commitManifest` writes of the blobs.
unfoldable pub record_blobs :
    PlacementIds → List ProviderKind → String → ℕ → List UploadedBlob → Db → Db
unfolding create_many
record_blobs id_of kinds owner now blobs db = record db {
  transports = create_many same_transport (map (new_transport owner now) blobs) db.transports;
  placements =
      create_many same_placement (flatten (map (replicas_of id_of now kinds) blobs))
        (create_many same_placement (map (primary_placement id_of now) blobs) db.placements);
}

abbrev finalize : String → ℕ → ℕ → File → File
finalize manifest_blob_id total_bytes chunk_count f = record f {
  primary_manifest_blob_id = some manifest_blob_id;
  total_bytes = total_bytes;
  chunk_count = chunk_count;
  status = ready;
}

unfoldable pub commit_manifest :
    PlacementIds
    → List ProviderKind
    → String
    → String
    → String
    → ℕ
    → ℕ
    → List UploadedBlob
    → ℕ
    → Action Bool
commit_manifest id_of kinds owner id manifest_blob_id total_bytes chunk_count blobs now = do
  f ← require_file owner id
  raise_if (not (is_uploading f.status)) "File is not in UPLOADING state"
  raise_if (not (any (λ (b : UploadedBlob). str_eq b.blob_id manifest_blob_id) blobs))
      "Manifest blob not found in commit payload"
  modify (record_blobs id_of kinds owner now blobs)
  modify (update_file id now (finalize manifest_blob_id total_bytes chunk_count))
  pure true

pub record UploadStatus : Type 0 where
  pub file_id : String
  pub status : FileStatus
  pub chunk_count : ℕ
  pub uploaded_chunk_indices : List ℕ
  pub has_manifest : Bool

abbrev pub has_prefix : String → String → String → Bool
has_prefix id separator blob_id = starts_with (codes id ++ codes separator) (codes blob_id)

abbrev codes_eq : List ℕ → List ℕ → Bool
codes_eq a b = starts_with a b && starts_with b a

abbrev is_manifest : String → String → Bool
is_manifest id blob_id = codes_eq (codes id ++ codes ":manifest") (codes blob_id)

index_of : String → String → List ℕ
index_of id blob_id =
    if is_manifest id blob_id
    then []
    else elim (parse_chunk_index blob_id) [ none ↦ [] | some n ↦ n ∷ [] ]

unfoldable pub get_upload_status : String → String → Action UploadStatus
unfolding index_of
get_upload_status owner id = do
  f ← require_file owner id
  blobs ← gets (λ (db : Db).
      filter (λ (t : Transport). str_eq t.owner_user_id owner && has_prefix id ":" t.blob_id)
        db.transports)
  pure (record {
    file_id = id;
    status = f.status;
    chunk_count = f.chunk_count;
    uploaded_chunk_indices =
        sort_by (λ n. n) (flatten (map (λ (t : Transport). index_of id t.blob_id) blobs));
    has_manifest = any (λ (t : Transport). is_manifest id t.blob_id) blobs;
  })

unfoldable pub delete_file : String → String → ℕ → Action Bool
delete_file owner id now = do
  require_file owner id
  modify (update_file id now (λ f. record f { deleted_at = some now }))
  modify (delete_shares (λ s. is_of_file id s && str_eq s.owner_user_id owner))
  pure true

-- `if (parentFolderId) { ... }`: the folder is looked up unless the text is null or empty.
abbrev pub require_folder : (Folder → Bool) → Option String → String → Action Done
require_folder scope parent message =
    gets (λ (db : Db).
      truthy parent
      && is_null (elim parent [ none ↦ none | some p ↦ find_folder scope db.folders p ]))
    >>= λ bad. raise_if bad message

unfoldable pub move_file : String → String → Option String → ℕ → Action Bool
unfolding find_folder
move_file owner id parent now = do
  require_file owner id
  require_folder (owned_by owner) parent "Folder not found"
  modify (update_file id now (λ f. record f { parent_folder_id = parent }))
  pure true

abbrev pub is_listed : File → Bool
is_listed f = is_null f.deleted_at && is_ready f.status

-- `orderBy: { createdAt: "desc" }`.
abbrev pub newest_first : List File → List File
newest_first fs = reverse (sort_by (λ (f : File). f.created_at) fs)

unfoldable pub get_files : String → Option String → Db → List File
get_files owner parent db = newest_first (
    filter
      (λ (f : File).
        str_eq f.owner_user_id owner && opt_eq f.parent_folder_id parent && is_listed f)
      db.files)

unfoldable pub get_file : String → String → Db → Option File
get_file owner id db = find (λ (f : File). owned_file owner id f && is_null f.deleted_at) db.files

abbrev sum_bytes : List File → ℕ
sum_bytes [] = 0
sum_bytes (f ∷ fs) = f.total_bytes + sum_bytes fs

-- The bytes and the number of the files of an account.
unfoldable pub get_storage_usage : String → Db → ℕ × ℕ
get_storage_usage owner db =
    let fs = filter (λ (f : File). str_eq f.owner_user_id owner && is_listed f) db.files in
    (sum_bytes fs, length fs)
