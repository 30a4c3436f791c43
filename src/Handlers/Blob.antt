-- ===== src/Handlers/Blob.antt =====
-- apps/api/src/handlers/blob.ts: the HTTP handlers of blobs. `resolveRequestAuth` comes in as what it
-- gave for the request. SHA-256, the random IV, the pools of the providers, the identifiers that the
-- database makes up and `new Date()` are arguments. Logs are left out, and so is the replication that
-- an upload starts in the background.
pub mod Uploads
pub mod Reach
pub mod Sharing
pub mod Uploading
pub mod RoundTrip
use ddrive.Prelude.{
  ℕ, ◌+◌, Bool, true, false, not, ◌&&◌, ◌||◌, List, [], ◌∷◌, ◌++◌, Option, none, some, String, map,
  ltb, str_eq, if◌then◌else◌, filter, find, any, length,
}
use ddrive.Prelude.Tables.{update_many, delete_many}
use ddrive.Prelude.Texts.{codes, starts_with, strip_prefix}
use ddrive.Processing.Chunker.{Bytes}
use ddrive.Storage.Rows.{
  ProviderKind, local, discord, telegram, is_discord, same_kind, PoolRole, primary, replica,
  is_primary, PlacementStatus, pending, active, Placement, Transport, PlacementWriteResult, Result,
  ok, err, truthy,
}
use ddrive.Storage.ServerCrypto.{Gcm, encrypt_server_side, decrypt_server_side}
use ddrive.Handlers.Reading.{PoolGet, read_blob_bytes}
use ddrive.Resolvers.Folders.{opt_eq}
use ddrive.Middleware.Auth.{AuthPayload, ResolvedAuth, leaked_api_key}
use ddrive.Database.Rows.{
  File, is_uploading, Share, ShareType, file_share, folder_share, ShareStatus,
  active as share_active, revoked, expired, Db,
}
use ddrive.Resolvers.Sharing.{Hashing, find_share, has_expired, is_used_up, token_matches}
use ddrive.Resolvers.Files.{
  is_null, find_transport, PlacementIds, replica_placement, same_placement, create_many,
}
use ddrive.Resolvers.Files.Health.{is_stored}
use ddrive.Resolvers.Files.Trash.{placements_of}

-- What an upload answers with.
pub record UploadReply : Type 0 where
  pub blob_id : String
  pub size_bytes : ℕ
  pub content_hash : String
  pub storage_kind : ProviderKind
  pub written : PlacementWriteResult

-- A response: a JSON error with its status, or 200 with what the handler sends.
pub data Reply : Type 0 where
  failed : ℕ → String → Reply
  metadata : Transport → Reply
  content : Bytes → Reply
  uploaded : UploadReply → Reply

-- `authOrResponse`: the caller, or the response that refuses them.
pub data Caller : Type 0 where
  known : AuthPayload → Caller
  refused : Reply → Caller

unfoldable pub auth_or_response : Result (Option ResolvedAuth) → Caller
auth_or_response (ok none) = refused (failed 401 "Authentication required")
auth_or_response (ok (some auth)) = known auth.payload
auth_or_response (err e) =
    if str_eq e leaked_api_key
    then refused (failed 400 e)
    else refused (failed 401 "Authentication required")

-- `toMetadataDto`: the columns of Discord are shown for blobs on Discord only.
unfoldable pub to_metadata_dto : Transport → Transport
to_metadata_dto t =
    if is_discord t.storage_kind
    then t
    else record t { discord_message_id = none; discord_channel_id = none; webhook_id = none }

unfoldable pub handle_blob_metadata : Result (Option ResolvedAuth) → String → Db → Reply
unfolding auth_or_response to_metadata_dto
handle_blob_metadata caller blob_id db = elim (auth_or_response caller) [
  | refused reply ↦ reply
  | known auth ↦ elim (find_transport blob_id db) [
    | none ↦ failed 404 "Blob not found"
    | some t ↦
        if str_eq t.owner_user_id auth.user_id
        then metadata (to_metadata_dto t)
        else failed 404 "Blob not found"
  ]
]

-- `text.split(separator)[0]`.
unfoldable pub before : List ℕ → List ℕ → List ℕ
before separator [] = []
before separator (c ∷ cs) = if starts_with separator (c ∷ cs) then [] else c ∷ before separator cs

abbrev pub is_code_text : List ℕ → String → Bool
is_code_text cs s = starts_with cs (codes s) && starts_with (codes s) cs

-- `blobId.split(":")[0]` is the identifier.
abbrev pub names_file : String → File → Bool
names_file blob_id f = is_code_text (before (codes ":") (codes blob_id)) f.id

module _ (get : PoolGet) (g : Gcm) (key : String) where
  -- The reading of both content handlers, with the placements that it marks.
  unfoldable pub send_blob : Transport → ℕ → Db → Reply × Db
  send_blob t now db =
      let (encrypted, placements') = read_blob_bytes get now t (placements_of db t) db.placements in
      let db' : Db = record db { placements = placements' } in
      elim encrypted [
        | err e ↦ (failed 500 e, db')
        | ok buf ↦ elim (decrypt_server_side g key buf) [
          | err e ↦ (failed 500 e, db')
          | ok bytes ↦ (content bytes, db')
        ]
      ]

  -- A file of an anonymous session that a blob belongs to by its name.
  abbrev pub is_session_blob : Transport → String → File → Bool
  is_session_blob t session f =
      names_file t.blob_id f
      && (str_eq f.owner_user_id t.owner_user_id
          && (f.is_anonymous && (opt_eq f.anon_session_id (some session) && is_null f.deleted_at)))

  -- The anonymous path, with the header `X-Anon-Session-Id`.
  send_to_session : Reply → Option String → Transport → ℕ → Db → Reply × Db
  unfolding send_blob
  send_to_session unauthorized none t now db = (unauthorized, db)
  send_to_session unauthorized (some session) t now db =
      if str_eq session ""
      then (unauthorized, db)
      else elim (find (is_session_blob t session) db.files) [
        | none ↦ (failed 404 "Blob not found", db)
        | some f ↦ send_blob t now db
      ]

  unfoldable pub handle_blob_content :
      Result (Option ResolvedAuth) → Option String → String → ℕ → Db → Reply × Db
  unfolding auth_or_response send_to_session send_blob
  handle_blob_content caller session blob_id now db = elim (find_transport blob_id db) [
    | none ↦ (failed 404 "Blob not found", db)
    | some t ↦ elim (auth_or_response caller) [
      | refused reply ↦ send_to_session reply session t now db
      | known auth ↦ elim (str_eq t.owner_user_id auth.user_id) [
        | true ↦ send_blob t now db
        | false ↦ (failed 404 "Blob not found", db)
      ]
    ]
  ]

  -- The checks on a share: the error response of the first that fails.
  share_problem : Hashing → String → ℕ → Share → Option Reply
  share_problem h token now s = elim s.status [
    | revoked ↦ some (failed 410 "Share revoked")
    | expired ↦ some (failed 404 "Share not active")
    | share_active ↦
        if has_expired now s.expires_at
        then some (failed 410 "Share expired")
        else if is_used_up s
        then some (failed 410 "Share view limit reached")
        else if not (token_matches h token s)
        then some (failed 403 "Invalid share token")
        else none
  ]

  -- Whether a share reaches a blob: a file of the shared folder, or any blob of the share's owner.
  unfoldable pub reaches : Share → Transport → Db → Bool
  reaches s t db = elim s.share_type [
    | file_share ↦ str_eq t.owner_user_id s.owner_user_id
    | folder_share ↦
        any
          (λ (f : File).
            names_file t.blob_id f
            && (opt_eq f.parent_folder_id s.folder_id && is_null f.deleted_at))
          db.files
  ]

  send_shared : Hashing → String → Share → String → ℕ → Db → Reply × Db
  unfolding share_problem reaches send_blob
  send_shared h token s blob_id now db = elim (share_problem h token now s) [
    | some reply ↦ (reply, db)
    | none ↦ elim (find_transport blob_id db) [
      | none ↦ (failed 404 "Blob not found", db)
      | some t ↦ elim (reaches s t db) [
        | true ↦ send_blob t now db
        | false ↦ (failed 403 "Blob not accessible via this share", db)
      ]
    ]
  ]

  -- The headers `x-share-id` and `x-share-token`.
  unfoldable pub handle_blob_content_for_share :
      Hashing → Option String → Option String → String → ℕ → Db → Reply × Db
  unfolding send_shared
  handle_blob_content_for_share h (some share_id) (some token) blob_id now db =
      if str_eq share_id "" || str_eq token ""
      then (failed 401 "Share credentials required", db)
      else elim (find_share share_id db) [
        | none ↦ (failed 404 "Share not found", db)
        | some s ↦ send_shared h token s blob_id now db
      ]
  handle_blob_content_for_share h share_id token blob_id now db =
      (failed 401 "Share credentials required", db)
