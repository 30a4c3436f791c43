-- ===== src/Resolvers/Files/Health.antt =====
-- apps/api/src/resolvers/files.ts, `updateChunkHealthBatch`: what the checks of stored chunks record.
use ddrive.Prelude.{ℕ, Bool, true, false, ◌&&◌, List, [], ◌∷◌, some, String, str_eq, any}
use ddrive.Prelude.Tables.{update_many}
use ddrive.Storage.Rows.{
  is_primary, PlacementStatus, active, missing, modified, Placement, Transport,
}
use ddrive.Database.Rows.{Db}

pub data ChunkHealth : Type 0 where
  healthy lost altered : ChunkHealth

abbrev placement_status : ChunkHealth → PlacementStatus
placement_status healthy = active
placement_status lost = missing
placement_status altered = modified

abbrev health_text : ChunkHealth → String
health_text healthy = "HEALTHY"
health_text lost = "MISSING"
health_text altered = "MODIFIED"

abbrev pub is_stored : PlacementStatus → Bool
is_stored active = true
is_stored missing = true
is_stored modified = true
is_stored _ = false

abbrev owns_blob : String → String → List Transport → Bool
owns_blob owner blob_id ts =
    any (λ (t : Transport). str_eq t.blob_id blob_id && str_eq t.owner_user_id owner) ts

-- The two updates of one entry of the batch.
update_health : String → ℕ → String × ChunkHealth → Db → Db
update_health owner now (chunk_id, health) db = record db {
  transports =
      update_many (λ (t : Transport). str_eq t.blob_id chunk_id && str_eq t.owner_user_id owner)
        (λ t. record t { health_status = some (health_text health); health_checked_at = some now })
        db.transports;
  placements =
      update_many
        (λ (p : Placement).
          str_eq p.blob_id chunk_id
          && (is_primary p.pool_role
              && (owns_blob owner chunk_id db.transports && is_stored p.status)))
        (λ p. record p { status = placement_status health; health_checked_at = some now })
        db.placements;
}

unfoldable pub update_chunk_health_batch : String → ℕ → List (String × ChunkHealth) → Db → Db
unfolding update_health
update_chunk_health_batch owner now [] db = db
update_chunk_health_batch owner now (u ∷ us) db =
    update_chunk_health_batch owner now us (update_health owner now u db)
