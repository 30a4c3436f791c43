-- ===== src/Database/Rows.antt =====
-- packages/database/prisma/schema.prisma: files, shares and reports, and all tables in one record.
use ddrive.Prelude.{ℕ, Bool, true, false, List, [], Option, String}
use ddrive.Storage.Rows.{ProviderKind, PoolRole, Placement, Transport, PlacementRef}
use ddrive.Resolvers.Folders.{Folder}

pub data FileStatus : Type 0 where
  uploading ready failed : FileStatus

abbrev pub is_uploading : FileStatus → Bool
is_uploading uploading = true
is_uploading _ = false

abbrev pub is_ready : FileStatus → Bool
is_ready ready = true
is_ready _ = false

pub record File : Type 0 where
  pub id : String
  pub owner_user_id : String
  pub parent_folder_id : Option String
  pub name : Option String
  pub mime_type : Option String
  pub primary_manifest_blob_id : Option String
  pub preview_blob_id : Option String
  pub thumbnail_blob_id : Option String
  pub poster_blob_id : Option String
  pub status : FileStatus
  pub total_bytes : ℕ
  pub chunk_count : ℕ
  pub created_at : ℕ
  pub updated_at : ℕ
  pub deleted_at : Option ℕ
  pub is_anonymous : Bool
  pub anon_session_id : Option String
  pub expires_at : Option ℕ

-- `@updatedAt`: what an update writes, with the time.
abbrev pub stamped : ℕ → (File → File) → File → File
stamped now g f = record (g f) { updated_at = now }

pub data ShareType : Type 0 where
  file_share folder_share : ShareType

pub data ShareStatus : Type 0 where
  active revoked expired : ShareStatus

pub record Share : Type 0 where
  pub share_id : String
  pub owner_user_id : String
  pub file_id : Option String
  pub folder_id : Option String
  pub share_type : ShareType
  pub token_hash : String
  pub allow_content : Bool
  pub allow_preview : Bool
  pub status : ShareStatus
  pub expires_at : Option ℕ
  pub max_views : Option ℕ
  pub view_count : ℕ
  pub created_at : ℕ
  pub revoked_at : Option ℕ
  pub anon_session_id : Option String
  pub anon_token : Option String
  pub label : Option String

pub data ReportStatus : Type 0 where
  opened resolved dismissed : ReportStatus

pub record ShareReport : Type 0 where
  pub id : String
  pub share_id : String
  pub reason : String
  pub note : Option String
  pub reporter_ip : Option String
  pub status : ReportStatus
  pub created_at : ℕ
  pub resolved_at : Option ℕ

-- A call of `pool.delete(ref)` of the pool of a provider and a role.
abbrev pub Deletion : Type 0
Deletion = ProviderKind × PoolRole × PlacementRef

-- The tables, and the calls of `pool.delete` that have been made, whatever came of them.
pub record Db : Type 0 where
  pub files : List File
  pub folders : List Folder
  pub transports : List Transport
  pub placements : List Placement
  pub shares : List Share
  pub reports : List ShareReport
  pub deletions : List Deletion

abbrev pub empty_db : Db
empty_db = record {
  files = [];
  folders = [];
  transports = [];
  placements = [];
  shares = [];
  reports = [];
  deletions = [];
}
