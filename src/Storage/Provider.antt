-- ===== src/Storage/Provider.antt =====
-- apps/api/src/storage/provider.ts: which copies serve reads, in which order.
pub mod Order
use ddrive.Prelude.{ℕ, Bool, true, false, List, Option, none, some, String, map, filter, ◌+◌}
use ddrive.Prelude.Sort.{sort_by}
use ddrive.Storage.Rows.{
  PoolRole, primary, replica, PlacementStatus, pending, active, missing, modified, deleting,
  Placement, Transport, PlacementRef,
}

-- `roleBonus`.
role_bonus : PoolRole → ℕ
role_bonus primary = 0
role_bonus replica = 1

-- `score`; `none` is `Number.POSITIVE_INFINITY`.
score : PlacementStatus → PoolRole → Option ℕ
unfolding role_bonus
score active role = some (0 + role_bonus role)
score modified role = some (4 + role_bonus role)
score _ role = none

abbrev is_finite : Option ℕ → Bool
is_finite none = false
is_finite (some n) = true

abbrev finite_or_zero : Option ℕ → ℕ
finite_or_zero none = 0
finite_or_zero (some n) = n

-- The key of the sort, which only meets rows of finite score.
abbrev pub rank : Placement → ℕ
unfolding score
rank r = finite_or_zero (score r.status r.pool_role)

abbrev pub is_readable : Placement → Bool
unfolding score
is_readable r = is_finite (score r.status r.pool_role)

unfoldable pub order_placements_for_read : List Placement → List Placement
unfolding score
order_placements_for_read rows = sort_by rank (filter is_readable rows)

unfoldable pub placement_from_row : String → String → Placement → PlacementRef
placement_from_row blob_id owner_user_id row = record {
  blob_id = blob_id;
  owner_user_id = owner_user_id;
  provider = row.provider;
  storage_path = row.storage_path;
  message_id = row.message_id;
  location_id = row.location_id;
  sender_id = row.sender_id;
}

unfoldable pub placement_from_blob_record : Transport → PlacementRef
placement_from_blob_record blob = record {
  blob_id = blob.blob_id;
  owner_user_id = blob.owner_user_id;
  provider = blob.storage_kind;
  storage_path = blob.storage_path;
  message_id = blob.discord_message_id;
  location_id = blob.discord_channel_id;
  sender_id = blob.webhook_id;
}
