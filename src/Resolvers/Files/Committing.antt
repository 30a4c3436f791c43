-- ===== src/Resolvers/Files/Committing.antt =====
-- apps/api/src/resolvers/files.ts: how `commitManifest` ends.
use ddrive.Prelude.{ℕ, ◌≡◌, ◌⊎◌, true, List, some, String, map, find, any, str_eq, All}
use ddrive.Storage.Rows.{ProviderKind, Transport, ok, err}
use ddrive.Database.Rows.{File, is_uploading, Db}
use ddrive.Resolvers.Files.{
  UploadedBlob, PlacementIds, owned_file, commit_manifest, finalize, same_transport, new_transport,
}

-- How a commit ends.
unfoldable pub Committed :
    PlacementIds
    → List ProviderKind
    → String
    → String
    → String
    → ℕ
    → ℕ
    → List UploadedBlob
    → ℕ
    → Db
    → Type 0
Committed id_of kinds owner id manifest bytes chunks blobs now db =
    let (r, db') = commit_manifest id_of kinds owner id manifest bytes chunks blobs now db in
    ((f : File) × (find (owned_file owner id) db.files ≡ some f)
      × (is_uploading f.status ≡ true)
      × (any (λ (b : UploadedBlob). str_eq b.blob_id manifest) blobs ≡ true)
      × (r ≡ ok true)
      × (find (owned_file owner id) db'.files
          ≡ some (record (finalize manifest bytes chunks f) { updated_at = now }))
      × All (λ (t : Transport). any (same_transport t) db'.transports ≡ true)
          (map (new_transport owner now) blobs))
    ⊎ ((message : String) × (commit_manifest id_of kinds owner id manifest bytes chunks blobs now db
          ≡ (err message, db)))
