-- ===== src/Handlers/Blob/Uploads.antt =====
-- apps/api/src/handlers/blob.ts: uploads of blobs.
use ddrive.Prelude.{
  ℕ, Bool, true, false, not, ◌&&◌, ◌||◌, List, [], ◌∷◌, Option, none, some, String, map, str_eq,
  if◌then◌else◌, find, length,
}
use ddrive.Prelude.Tables.{update_many, delete_many}
use ddrive.Prelude.Texts.{codes}
use ddrive.Processing.Chunker.{Bytes}
use ddrive.Storage.Rows.{
  ProviderKind, is_discord, same_kind, primary, is_primary, pending, active, Placement, Transport,
  PlacementWriteResult, Result, ok, err,
}
use ddrive.Storage.ServerCrypto.{Gcm, encrypt_server_side}
use ddrive.Middleware.Auth.{ResolvedAuth}
use ddrive.Database.Rows.{File, is_uploading, Db}
use ddrive.Resolvers.Sharing.{has_expired}
use ddrive.Resolvers.Files.{
  find_transport, PlacementIds, replica_placement, same_placement, create_many,
}
use ddrive.Resolvers.Files.Health.{is_stored}
use ddrive.Handlers.Blob.{
  Reply, auth_or_response, before, failed, is_code_text, known, refused, uploaded,
}

-- The primary pool: its kind, and `put` by owner, blob and content, as what it settles to.
pub record PrimaryPool : Type 0 where
  pub kind : ProviderKind
  pub put : String → String → Bytes → Result PlacementWriteResult

-- What an upload has settled before it writes the rows.
pub record Stored : Type 0 where
  pub owner : String
  pub blob_id : String
  pub kind : ProviderKind
  pub written : PlacementWriteResult
  pub size_bytes : ℕ
  pub content_hash : String

abbrev pub on_discord : ProviderKind → Option String → Option String → Option String
on_discord kind fresh old = if is_discord kind then fresh else old

-- `update: { ...transportData, healthStatus: null, healthCheckedAt: null }`.
abbrev pub update_transport : Stored → Transport → Transport
update_transport s t = record t {
  owner_user_id = s.owner;
  storage_kind = s.kind;
  storage_path = s.written.storage_path;
  discord_message_id = on_discord s.kind s.written.message_id t.discord_message_id;
  discord_channel_id = on_discord s.kind s.written.location_id t.discord_channel_id;
  webhook_id = on_discord s.kind s.written.sender_id t.webhook_id;
  size_bytes = s.size_bytes;
  content_hash = some s.content_hash;
  health_status = none;
  health_checked_at = none;
}

-- `create: { blobId, ...transportData }`.
abbrev pub create_transport : Stored → ℕ → Transport
create_transport s now = record {
  blob_id = s.blob_id;
  owner_user_id = s.owner;
  storage_kind = s.kind;
  storage_path = s.written.storage_path;
  discord_message_id = on_discord s.kind s.written.message_id none;
  discord_channel_id = on_discord s.kind s.written.location_id none;
  webhook_id = on_discord s.kind s.written.sender_id none;
  size_bytes = s.size_bytes;
  content_hash = some s.content_hash;
  health_status = none;
  health_checked_at = none;
  created_at = now;
}

-- `upsert`: the rows that match are updated, and without one a row is added.
unfoldable pub upsert {ℓ} : {Row : Type ℓ} → (Row → Bool) → (Row → Row) → Row → List Row → List Row
upsert p f row [] = row ∷ []
upsert p f row (r ∷ rs) = if p r then f r ∷ rs else r ∷ upsert p f row rs

abbrev pub placement_coordinates : Stored → ℕ → Placement → Placement
placement_coordinates s now p = record p {
  status = active;
  storage_path = s.written.storage_path;
  message_id = s.written.message_id;
  location_id = s.written.location_id;
  sender_id = s.written.sender_id;
  activated_at = some now;
  attempt_count = 0;
  last_error = none;
}

abbrev pub create_placement : PlacementIds → Stored → ℕ → Placement
create_placement id_of s now = record {
  id = id_of s.blob_id s.kind primary;
  blob_id = s.blob_id;
  provider = s.kind;
  pool_role = primary;
  status = active;
  storage_path = s.written.storage_path;
  message_id = s.written.message_id;
  location_id = s.written.location_id;
  sender_id = s.written.sender_id;
  attempt_count = 0;
  last_error = none;
  next_attempt_at = none;
  created_at = now;
  activated_at = some now;
  health_checked_at = none;
}

-- The primary placements: those on another provider go, the one on this provider is written.
unfoldable pub write_primary : PlacementIds → Stored → ℕ → List Placement → List Placement
unfolding upsert
write_primary id_of s now placements =
    upsert
      (λ (p : Placement).
        str_eq p.blob_id s.blob_id && (same_kind p.provider s.kind && is_primary p.pool_role))
      (placement_coordinates s now) (create_placement id_of s now)
      (delete_many
        (λ (p : Placement).
          str_eq p.blob_id s.blob_id
          && (is_primary p.pool_role && not (same_kind p.provider s.kind)))
        placements)

-- The replicas: copies of the older content are queued again, and missing rows are added.
unfoldable pub queue_replicas :
    PlacementIds → List ProviderKind → String → ℕ → List Placement → List Placement
unfolding create_many
queue_replicas id_of [] blob_id now placements = placements
queue_replicas id_of (kind ∷ kinds) blob_id now placements =
    create_many same_placement (map (replica_placement id_of now blob_id) (kind ∷ kinds)) (
      update_many
        (λ (p : Placement).
          str_eq p.blob_id blob_id && (not (is_primary p.pool_role) && is_stored p.status))
        (λ p. record p { status = pending; attempt_count = 0; next_attempt_at = none }) placements)

-- The transaction of an upload.
unfoldable pub record_upload : PlacementIds → List ProviderKind → Stored → ℕ → Db → Db
unfolding upsert write_primary queue_replicas
record_upload id_of kinds s now db = record db {
  transports =
      upsert (λ (t : Transport). str_eq t.blob_id s.blob_id) (update_transport s)
        (create_transport s now) db.transports;
  placements = queue_replicas id_of kinds s.blob_id now (write_primary id_of s now db.placements);
}

-- What the process is configured with: the cipher, its key, the hash, and the pools.
pub record Storage : Type 0 where
  pub gcm : Gcm
  pub key : String
  pub sha256 : Bytes → String
  pub pool : PrimaryPool
  pub replica_kinds : List ProviderKind
  pub id_of : PlacementIds

-- Behind the check of the owner: encrypt, hash, store, and record.
unfoldable pub store_blob : Storage → String → String → Bytes → Bytes → ℕ → Db → Reply × Db
store_blob st owner blob_id plaintext iv now db =
    elim (encrypt_server_side st.gcm st.key iv plaintext) [
      | err e ↦ (failed 500 e, db)
      | ok sealed ↦ elim (st.pool.put owner blob_id sealed) [
        | err e ↦ (failed 500 e, db)
        | ok written ↦
            let stored : Stored = record {
              owner = owner;
              blob_id = blob_id;
              kind = st.pool.kind;
              written = written;
              size_bytes = length sealed;
              content_hash = st.sha256 sealed;
            } in
            (
              uploaded (record {
                blob_id = blob_id;
                size_bytes = length sealed;
                content_hash = st.sha256 sealed;
                storage_kind = st.pool.kind;
                written = written;
              }),
              record_upload st.id_of st.replica_kinds stored now db,
            )
      ]
    ]

unfoldable pub handle_blob_upload_as :
    Storage → String → String → Bytes → Bytes → ℕ → Db → Reply × Db
unfolding store_blob
handle_blob_upload_as st owner blob_id plaintext iv now db = elim (find_transport blob_id db) [
  | none ↦ store_blob st owner blob_id plaintext iv now db
  | some t ↦ elim (str_eq t.owner_user_id owner) [
    | true ↦ store_blob st owner blob_id plaintext iv now db
    | false ↦ (failed 404 "Blob not found", db)
  ]
]

unfoldable pub handle_blob_upload :
    Storage → Result (Option ResolvedAuth) → String → Bytes → Bytes → ℕ → Db → Reply × Db
unfolding auth_or_response
handle_blob_upload st caller blob_id plaintext iv now db = elim (auth_or_response caller) [
  | refused reply ↦ (reply, db)
  | known auth ↦ handle_blob_upload_as st auth.user_id blob_id plaintext iv now db
]

unfoldable pub handle_anonymous_blob_upload : Storage → String → Bytes → Bytes → ℕ → Db → Reply × Db
handle_anonymous_blob_upload st blob_id plaintext iv now db =
    let file_id = before (codes ":chunk:") (codes blob_id) in
    elim file_id [
      | [] ↦ (failed 400 "Invalid blob id", db)
      | c ∷ cs ↦ elim (find (λ (f : File). is_code_text (c ∷ cs) f.id) db.files) [
        | none ↦ (failed 404 "Anonymous upload not found or already finalized", db)
        | some f ↦
            if not f.is_anonymous || not (is_uploading f.status)
            then (failed 404 "Anonymous upload not found or already finalized", db)
            else if has_expired now f.expires_at
            then (failed 410 "Upload session expired", db)
            else handle_blob_upload_as st f.owner_user_id blob_id plaintext iv now db
      ]
    ]
