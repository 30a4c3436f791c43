-- ===== src/Handlers/Reading.antt =====
-- apps/api/src/handlers/blob.ts, `readBlobBytes`. The pools are the storage providers' and are a
-- parameter; the updates that it starts without waiting are applied where they are started.
pub mod Outcome
use ddrive.Prelude.{
  ℕ, ◌+◌, Bool, true, false, not, ◌&&◌, ◌||◌, List, [], ◌∷◌, Option, none, some, String, leb, ◌==◌,
  str_eq, if◌then◌else◌, any, map,
}
use ddrive.Prelude.Tables.{update_many}
use ddrive.Prelude.Texts.{codes, includes}
use ddrive.Processing.Chunker.{Bytes}
use ddrive.Storage.Rows.{
  ProviderKind, PoolRole, primary, PlacementStatus, active, missing, modified, Placement, Transport,
  PlacementRef, Result, ok, err,
}
use ddrive.Storage.Provider.{
  order_placements_for_read, placement_from_row, placement_from_blob_record,
}

-- `pool.get(ref)` of the pool of a provider and a role.
abbrev pub PoolGet : Type 0
PoolGet = ProviderKind → PoolRole → PlacementRef → Result Bytes

-- `toLowerCase()` on one code point. Of the others none has a lower case that the texts below hold.
lower : ℕ → ℕ
lower c = if leb b'A' c && leb c b'Z' then c + 32 else c

unfoldable pub looks_like_missing : String → Bool
unfolding codes lower includes
looks_like_missing message =
    let msg = map lower (codes message) in
    includes (codes "not found") msg || includes (codes "404") msg || includes (codes "enoent") msg

abbrev pub is_active_or_modified : PlacementStatus → Bool
is_active_or_modified active = true
is_active_or_modified modified = true
is_active_or_modified _ = false

-- The `updateMany` that records a copy as lost: `now` is `new Date()`.
mark_missing : ℕ → String → List Placement → List Placement
mark_missing now id =
    update_many (λ r. str_eq r.id id && is_active_or_modified r.status)
      (λ r. record r {
        status = missing;
        health_checked_at = some now;
        attempt_count = 0;
        next_attempt_at = none;
      })

-- `if (placement.id && looksLikeMissing(error))`.
note_failure : ℕ → Placement → String → List Placement → List Placement
unfolding mark_missing
note_failure now placement error table =
    if not (str_eq placement.id "") && looks_like_missing error
    then mark_missing now placement.id table
    else table

module _ (get : PoolGet) (now : ℕ) where
  unfoldable pub fetch : String → String → Placement → Result Bytes
  fetch blob_id owner r = get r.provider r.pool_role (placement_from_row blob_id owner r)

  -- The loop over the candidates, with `lastError`.
  read_from :
      String → String → List Placement → String → List Placement → Result Bytes × List Placement
  read_from blob_id owner [] last_error table = (err last_error, table)
  read_from blob_id owner (r ∷ rs) last_error table = elim (fetch blob_id owner r) [
    | ok bytes ↦ (ok bytes, table)
    | err e ↦ read_from blob_id owner rs e (note_failure now r e table)
  ]

  read_candidates : Transport → List Placement → List Placement → Result Bytes × List Placement
  read_candidates blob [] table =
      (get blob.storage_kind primary (placement_from_blob_record blob), table)
  read_candidates blob (r ∷ rs) table = read_from blob.blob_id blob.owner_user_id (r ∷ rs) "" table

  -- The blob, the placements read with it, and the table of placements; also the table afterwards.
  unfoldable pub read_blob_bytes :
      Transport → List Placement → List Placement → Result Bytes × List Placement
  unfolding read_candidates read_from fetch note_failure
  read_blob_bytes blob placements table =
      read_candidates blob (order_placements_for_read placements) table
