-- ===== src/Replication/Worker/Outcome.antt =====
-- apps/api/src/storage/replication-worker.ts, `processPlacement`: how a call ends.
use ddrive.Prelude.{ℕ, ◌≡◌, Bool, true, false, [], ◌∷◌, ◌++◌, Option, String, any, str_eq}
use ddrive.Prelude.Tables.{update_many}
use ddrive.Processing.Chunker.{Bytes}
use ddrive.Storage.Rows.{Placement, PlacementWriteResult, ok}
use ddrive.Database.Rows.{Db}
use ddrive.Database.Cascades.{is_in}
use ddrive.Replication.Worker.{
  WorkRow, Pools, Worker, is_waiting, activated, written_ref, source, has_hash, postponed,
}

-- A copy of the ciphertext was written; the ciphertext has the hash of the blob, if one is recorded.
unfoldable pub IsCopied : Pools → WorkRow → Option Bytes → Db → PlacementWriteResult → Type 0
IsCopied p row bytes db written =
    (ciphertext : Bytes) × (source p row bytes db ≡ ok ciphertext)
    × (has_hash p row.blob.content_hash ciphertext ≡ true)
    × (p.put row.placement.provider row.placement.pool_role row.blob.owner_user_id
          row.placement.blob_id ciphertext
        ≡ ok written)

-- The four ways in which a call ends, with the tables that others left meanwhile.
pub data Ending (p : Pools) (row : WorkRow) (bytes : Option Bytes) (now : ℕ) (w : Worker)
    : Db → Bool × Worker → Type 0 where
  skipped :
      {db : Db} → is_in w.in_flight row.placement.id ≡ true → Ending p row bytes now w db (false, w)
  copied :
      {db : Db} (written : PlacementWriteResult) (after : Worker)
      → IsCopied p row bytes w.db written
      → any (is_waiting row) db.placements ≡ true
      → after.db.placements ≡ update_many (is_waiting row) (activated written now) db.placements
      → Ending p row bytes now w db (true, after)
  orphaned :
      {db : Db} (written : PlacementWriteResult) (after : Worker)
      → IsCopied p row bytes w.db written
      → any (is_waiting row) db.placements ≡ false
      → after.db ≡ record db {
        deletions =
            db.deletions
            ++ (row.placement.provider, row.placement.pool_role, written_ref row written) ∷ [];
      }
      → Ending p row bytes now w db (false, after)
  delayed :
      {db : Db} (message : String) (after : Worker)
      → after.db.placements
        ≡ update_many
            (λ (q : Placement). str_eq q.id row.placement.id)
            (postponed p row message now)
            db.placements
      → Ending p row bytes now w db (false, after)
