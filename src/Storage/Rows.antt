-- ===== src/Storage/Rows.antt =====
-- The rows of packages/database/prisma/schema.prisma that blob storage reads and writes, and the
-- interfaces of apps/api/src/storage/provider.ts. Dates are milliseconds; a nullable column is an
-- option.
use ddrive.Prelude.{
  ◌≡◌, refl, ◌⊎◌, inl, inr, ℕ, Bool, true, false, not, Option, none, some, String, str_eq,
}

pub data ProviderKind : Type 0 where
  local discord telegram : ProviderKind

pub data PoolRole : Type 0 where
  primary replica : PoolRole

pub data PlacementStatus : Type 0 where
  pending active missing modified deleting : PlacementStatus

-- `BlobPlacement`. Where an interface leaves `id` out, it is the empty text.
pub record Placement : Type 0 where
  pub id : String
  pub blob_id : String
  pub provider : ProviderKind
  pub pool_role : PoolRole
  pub status : PlacementStatus
  pub storage_path : String
  pub message_id : Option String
  pub location_id : Option String
  pub sender_id : Option String
  pub attempt_count : ℕ
  pub last_error : Option String
  pub next_attempt_at : Option ℕ
  pub created_at : ℕ
  pub activated_at : Option ℕ
  pub health_checked_at : Option ℕ

-- `BlobTransport`, with the legacy columns that mirror the primary placement.
pub record Transport : Type 0 where
  pub blob_id : String
  pub owner_user_id : String
  pub storage_kind : ProviderKind
  pub storage_path : String
  pub discord_message_id : Option String
  pub discord_channel_id : Option String
  pub webhook_id : Option String
  pub size_bytes : ℕ
  pub content_hash : Option String
  pub health_status : Option String
  pub health_checked_at : Option ℕ
  pub created_at : ℕ

-- Coordinates of one stored copy.
pub record PlacementRef : Type 0 where
  pub blob_id : String
  pub owner_user_id : String
  pub provider : ProviderKind
  pub storage_path : String
  pub message_id : Option String
  pub location_id : Option String
  pub sender_id : Option String

pub record PlacementWriteResult : Type 0 where
  pub provider : ProviderKind
  pub storage_path : String
  pub message_id : Option String
  pub location_id : Option String
  pub sender_id : Option String

-- An awaited call: its value, or the message of the error that it throws.
pub data Result {ℓ} (A : Type ℓ) : Type ℓ where
  ok : A → Result A
  err : String → Result A

pub Result-cases {ℓ} :
    {A : Type ℓ} (r : Result A) → ((a : A) × (r ≡ ok a)) ⊎ ((e : String) × (r ≡ err e))
Result-cases (ok a) = inl (a, refl)
Result-cases (err e) = inr (e, refl)

abbrev pub is_primary : PoolRole → Bool
is_primary primary = true
is_primary replica = false

abbrev pub is_discord : ProviderKind → Bool
is_discord discord = true
is_discord _ = false

abbrev pub same_kind : ProviderKind → ProviderKind → Bool
same_kind local local = true
same_kind discord discord = true
same_kind telegram telegram = true
same_kind _ _ = false

-- A text or null under `if (x)`: null and the empty text count as false.
abbrev pub truthy : Option String → Bool
truthy none = false
truthy (some s) = not (str_eq s "")
