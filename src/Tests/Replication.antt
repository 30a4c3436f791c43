-- ===== src/Tests/Replication.antt =====
-- apps/api/src/storage/replication-worker.ts on a blob with one queued replica.
use ddrive.Prelude.{◌≡◌, refl, [], ◌∷◌, none, some, filter}
use ddrive.Prelude.Sort.{sort_by}
use ddrive.Prelude.Tables.{update_many}
use ddrive.Storage.Rows.{discord, replica, pending, Placement, PlacementWriteResult, ok}
use ddrive.Storage.Provider.{order_placements_for_read}
use ddrive.Database.Rows.{Db}
use ddrive.Replication.Worker.{
  WorkRow, Pools, Worker, activate, activated, write_copy, read_source_bytes, process_placement,
  due_rows, run_replication_sweep,
}
use ddrive.Tests.Database.{chunk_of_photo, copy_of_chunk, tables}

abbrev queued : Placement
queued = record copy_of_chunk {
  id = "p2";
  provider = discord;
  pool_role = replica;
  status = pending;
  storage_path = "pending://replica";
  created_at = 2;
}

abbrev first_copy : PlacementWriteResult
first_copy = record {
  provider = discord;
  storage_path = "discord://m1";
  message_id = some "m1";
  location_id = some "c1";
  sender_id = some "w1";
}

abbrev pools : Pools
pools = record {
  get = λ kind role ref. ok (1 ∷ []);
  put = λ kind role owner blob_id bytes. ok first_copy;
  sha256_hex = λ bytes. "hash";
  clip = λ message. message;
}

abbrev row : WorkRow
row = record { placement = queued; blob = chunk_of_photo }

abbrev worker : Worker
worker = record { db = record tables { placements = copy_of_chunk ∷ queued ∷ [] }; in_flight = [] }

sweep_activates :
    (run_replication_sweep pools 9 (λ db. db) worker).1.db.placements
    ≡ copy_of_chunk ∷ activated first_copy 9 queued ∷ []
unfolding run_replication_sweep due_rows process_placement write_copy read_source_bytes activate
    order_placements_for_read sort_by filter update_many
sweep_activates = refl

-- A new upload of the blob while the older content is copied queues the replica again; the copy of the
-- older content becomes ACTIVE all the same.
abbrev uploaded_anew : Db → Db
uploaded_anew db = record db {
  transports = record chunk_of_photo { content_hash = some "new" } ∷ [];
  placements = copy_of_chunk ∷ queued ∷ [];
}

older_copy_activated :
    (process_placement pools row none 9 uploaded_anew worker).1.db.placements
    ≡ copy_of_chunk ∷ activated first_copy 9 queued ∷ []
unfolding process_placement write_copy read_source_bytes activate order_placements_for_read sort_by
    filter update_many
older_copy_activated = refl
