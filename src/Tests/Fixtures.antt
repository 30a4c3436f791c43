-- ===== src/Tests/Fixtures.antt =====
-- Data that several tests share: a toy cipher for the platform's, rows of blobs and placements.
use ddrive.Prelude.{ℕ, refl, List, [], ◌∷◌, ◌++◌, none, some, String, replicate}
use ddrive.Processing.Chunker.{Bytes}
use ddrive.Storage.Rows.{
  ProviderKind, local, discord, PoolRole, primary, replica, PlacementStatus, active, modified,
  pending, Placement, Transport, ok, err,
}
use ddrive.Storage.ServerCrypto.{Gcm, GcmLaws}
use ddrive.Handlers.Reading.{PoolGet}

-- It keeps the plaintext and adds a tag of zeros.
abbrev pub toy : Gcm
toy = record {
  from_base64 = λ raw. replicate 32 7;
  encrypt = λ key iv p. (p, replicate 16 0);
  decrypt = λ key iv tag c. some c;
}

pub toy-laws : GcmLaws toy
toy-laws = record {
  length_ciphertext = λ key iv p. refl;
  length_tag = λ key iv p. refl;
  decrypt-encrypt = λ key iv p. refl;
}

abbrev pub iv : Bytes
iv = replicate 12 9

abbrev pub sealed : Bytes → Bytes
sealed p = iv ++ (p ++ replicate 16 0)

abbrev pub transport : String → ℕ → Transport
transport blob_id size = record {
  blob_id = blob_id;
  owner_user_id = "u1";
  storage_kind = local;
  storage_path = blob_id;
  discord_message_id = none;
  discord_channel_id = none;
  webhook_id = none;
  size_bytes = size;
  content_hash = none;
  health_status = none;
  health_checked_at = none;
  created_at = 0;
}

abbrev pub placement : String → ProviderKind → PoolRole → PlacementStatus → Placement
placement id kind role status = record {
  id = id;
  blob_id = "f1:chunk:0";
  provider = kind;
  pool_role = role;
  status = status;
  storage_path = "p";
  message_id = none;
  location_id = none;
  sender_id = none;
  attempt_count = 0;
  last_error = none;
  next_attempt_at = none;
  created_at = 0;
  activated_at = none;
  health_checked_at = none;
}

abbrev pub rows : List Placement
rows =
    placement "a" discord replica modified
    ∷ placement "b" local replica active
    ∷ placement "c" discord primary pending
    ∷ placement "d" discord primary active
    ∷ []

-- Discord has lost its copies; the disk has one.
abbrev pub half_lost : PoolGet
half_lost discord role ref = err "404 Not Found"
half_lost _ role ref = ok (sealed (1 ∷ 2 ∷ 3 ∷ []))
