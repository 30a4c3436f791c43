-- ===== src/Tests/Database.antt =====
-- Rows that the tests on the database share: an account's file, a share of it, and its blobs.
use ddrive.Prelude.{true, false, [], ◌∷◌, none, some}
use ddrive.Prelude.Texts.{codes}
use ddrive.Storage.Rows.{local, primary, active, Placement, Transport}
use ddrive.Resolvers.Sharing.{Hashing}
use ddrive.Database.Rows.{File, ready, Share, file_share, active as share_active, Db, empty_db}

abbrev pub hashing : Hashing
hashing = record { sha256_hex = λ token. token; from_hex = λ text. codes text }

abbrev pub photo : File
photo = record {
  id = "f1";
  owner_user_id = "u1";
  parent_folder_id = none;
  name = some "photo";
  mime_type = none;
  primary_manifest_blob_id = some "f1:manifest";
  preview_blob_id = none;
  thumbnail_blob_id = none;
  poster_blob_id = none;
  status = ready;
  total_bytes = 2;
  chunk_count = 1;
  created_at = 1;
  updated_at = 1;
  deleted_at = none;
  is_anonymous = false;
  anon_session_id = none;
  expires_at = none;
}

abbrev pub letter : File
letter = record photo { id = "f2"; owner_user_id = "u2"; name = some "letter" }

abbrev pub photo_share : Share
photo_share = record {
  share_id = "s1";
  owner_user_id = "u1";
  file_id = some "f1";
  folder_id = none;
  share_type = file_share;
  token_hash = "t";
  allow_content = true;
  allow_preview = false;
  status = share_active;
  expires_at = none;
  max_views = some 2;
  view_count = 0;
  created_at = 2;
  revoked_at = none;
  anon_session_id = none;
  anon_token = none;
  label = none;
}

abbrev pub chunk_of_photo : Transport
chunk_of_photo = record {
  blob_id = "f1:chunk:0";
  owner_user_id = "u1";
  storage_kind = local;
  storage_path = "p0";
  discord_message_id = none;
  discord_channel_id = none;
  webhook_id = none;
  size_bytes = 30;
  content_hash = none;
  health_status = none;
  health_checked_at = none;
  created_at = 1;
}

abbrev pub copy_of_chunk : Placement
copy_of_chunk = record {
  id = "p1";
  blob_id = "f1:chunk:0";
  provider = local;
  pool_role = primary;
  status = active;
  storage_path = "p0";
  message_id = none;
  location_id = none;
  sender_id = none;
  attempt_count = 0;
  last_error = none;
  next_attempt_at = none;
  created_at = 1;
  activated_at = some 1;
  health_checked_at = none;
}

abbrev pub tables : Db
tables = record empty_db {
  files = photo ∷ letter ∷ [];
  transports = chunk_of_photo ∷ [];
  placements = copy_of_chunk ∷ [];
  shares = photo_share ∷ [];
}
