-- ===== src/Replication/Worker.antt =====
-- apps/api/src/storage/replication-worker.ts. The pools, SHA-256 and `message.slice(0, 500)` are
-- parameters. A call reads the tables, then writes a copy, then updates the tables: what others do to
-- them before that update is an argument. Database errors are left out, and so are the timer and the
-- number of workers of a sweep, which is shown with one, and the name of the blob in a message.
pub mod Outcome
use ddrive.Prelude.{
  ℕ, ◌+◌, ◌*◌, ◌^◌, min, Bool, true, false, not, ◌&&◌, ◌||◌, List, [], ◌∷◌, ◌++◌, Option, none,
  some, String, ltb, leb, str_eq, if◌then◌else◌, filter, any, take,
}
use ddrive.Prelude.Sort.{sort_by}
use ddrive.Prelude.Tables.{update_many}
use ddrive.Processing.Chunker.{Bytes}
use ddrive.Storage.Rows.{
  ProviderKind, PoolRole, primary, replica, is_primary, is_discord, PlacementStatus, pending,
  active, missing, modified, deleting, Placement, Transport, PlacementRef, PlacementWriteResult,
  Result, ok, err, truthy,
}
use ddrive.Storage.Provider.{
  order_placements_for_read, placement_from_row, placement_from_blob_record,
}
use ddrive.Handlers.Reading.{PoolGet}
use ddrive.Database.Rows.{Deletion, Db}
use ddrive.Database.Cascades.{is_in}

abbrev pub max_attempts : ℕ
max_attempts = 8

abbrev pub sweep_batch_size : ℕ
sweep_batch_size = 50

unfoldable pub backoff_ms : ℕ → ℕ
backoff_ms attempt_count = min (2 ^ attempt_count * 30000) 21600000

-- A placement that is queued, with its blob, as they were read.
pub record WorkRow : Type 0 where
  pub placement : Placement
  pub blob : Transport

pub record Pools : Type 0 where
  pub get : PoolGet
  pub put : ProviderKind → PoolRole → String → String → Bytes → Result PlacementWriteResult
  pub sha256_hex : Bytes → String
  pub clip : String → String

-- The tables, and `inFlight`.
pub record Worker : Type 0 where
  pub db : Db
  pub in_flight : List String

abbrev or_error : Option String → String → String
or_error none e = e
or_error (some last) e = last

abbrev pub is_queued : PlacementStatus → Bool
is_queued pending = true
is_queued missing = true
is_queued _ = false

-- `{ id: row.id, status: { in: ["PENDING", "MISSING"] } }`.
abbrev pub is_waiting : WorkRow → Placement → Bool
is_waiting row p = str_eq p.id row.placement.id && is_queued p.status

abbrev pub activated : PlacementWriteResult → ℕ → Placement → Placement
activated written now p = record p {
  status = active;
  storage_path = written.storage_path;
  message_id = written.message_id;
  location_id = written.location_id;
  sender_id = written.sender_id;
  activated_at = some now;
  attempt_count = 0;
  last_error = none;
  next_attempt_at = none;
}

abbrev on_discord : PlacementWriteResult → Option String → Option String
on_discord written id = if is_discord written.provider then id else none

abbrev mirrored : PlacementWriteResult → Transport → Transport
mirrored written t = record t {
  storage_kind = written.provider;
  storage_path = written.storage_path;
  discord_message_id = on_discord written written.message_id;
  discord_channel_id = on_discord written written.location_id;
  webhook_id = on_discord written written.sender_id;
  health_status = none;
  health_checked_at = none;
}

abbrev pub written_ref : WorkRow → PlacementWriteResult → PlacementRef
written_ref row written = record {
  blob_id = row.placement.blob_id;
  owner_user_id = row.blob.owner_user_id;
  provider = written.provider;
  storage_path = written.storage_path;
  message_id = written.message_id;
  location_id = written.location_id;
  sender_id = written.sender_id;
}

abbrev pub add_deletion : Deletion → Db → Db
add_deletion d db = record db { deletions = db.deletions ++ d ∷ [] }

-- The update of the row that a written copy makes ACTIVE, and what follows when there is none.
unfoldable pub activate : WorkRow → PlacementWriteResult → ℕ → Db → Bool × Db
activate row written now db =
    let db' : Db = record db {
      placements = update_many (is_waiting row) (activated written now) db.placements;
    } in
    if not (any (is_waiting row) db.placements)
    then (
      false,
      add_deletion (row.placement.provider, row.placement.pool_role, written_ref row written) db,
    )
    else if is_primary row.placement.pool_role
    then (
      true,
      record db' {
        transports =
            update_many (λ (t : Transport). str_eq t.blob_id row.placement.blob_id)
              (mirrored written) db.transports;
      },
    )
    else (true, db')

module _ (p : Pools) where
  -- The loop over the candidates, with `lastError`, and the legacy columns behind it.
  read_sources : WorkRow → List Placement → Option String → Result Bytes
  read_sources row [] last_error =
      elim (p.get row.blob.storage_kind primary (placement_from_blob_record row.blob)) [
        | ok bytes ↦ ok bytes
        | err e ↦ err (or_error last_error e)
      ]
  read_sources row (c ∷ cs) last_error =
      elim (p.get c.provider c.pool_role
        (placement_from_row row.placement.blob_id row.blob.owner_user_id c)) [
          | ok bytes ↦ ok bytes
          | err e ↦ read_sources row cs (some e)
        ]

  unfoldable pub read_source_bytes : WorkRow → Db → Result Bytes
  unfolding read_sources
  read_source_bytes row db =
      read_sources row
        (order_placements_for_read (
          filter
            (λ (q : Placement).
              str_eq q.blob_id row.placement.blob_id && not (str_eq q.id row.placement.id))
            db.placements))
        none

  -- The ciphertext: the one in memory, or one that is read.
  abbrev pub source : WorkRow → Option Bytes → Db → Result Bytes
  source row none db = read_source_bytes row db
  source row (some bytes) db = ok bytes

  -- `if (row.blob.contentHash)`, and the comparison.
  abbrev pub has_hash : Option String → Bytes → Bool
  has_hash none bytes = true
  has_hash (some hash) bytes = str_eq hash "" || str_eq (p.sha256_hex bytes) hash

  abbrev drop_stale : WorkRow → Db → Db
  drop_stale row db =
      if truthy row.placement.message_id
      then add_deletion
          (
            row.placement.provider,
            row.placement.pool_role,
            placement_from_row row.placement.blob_id row.blob.owner_user_id row.placement,
          )
          db
      else db

  -- Up to the copy that is written.
  unfoldable pub write_copy : WorkRow → Option Bytes → Db → Result PlacementWriteResult × Db
  write_copy row bytes db = elim (source row bytes db) [
    | err e ↦ (err e, db)
    | ok ciphertext ↦
        if has_hash row.blob.content_hash ciphertext
        then (
          p.put row.placement.provider row.placement.pool_role row.blob.owner_user_id
              row.placement.blob_id ciphertext,
          drop_stale row db,
        )
        else (err "source ciphertext hash mismatch", db)
  ]

  abbrev pub postponed : WorkRow → String → ℕ → Placement → Placement
  postponed row message now q = record q {
    attempt_count = q.attempt_count + 1;
    last_error = some (p.clip message);
    next_attempt_at = some (now + backoff_ms (row.placement.attempt_count + 1));
  }

  abbrev postpone : WorkRow → String → ℕ → Db → Db
  postpone row message now db = record db {
    placements =
        update_many (λ (q : Placement). str_eq q.id row.placement.id) (postponed row message now)
          db.placements;
  }

  unfoldable pub process_placement : WorkRow → Option Bytes → ℕ → (Db → Db) → Worker → Bool × Worker
  unfolding write_copy
  process_placement row bytes now meanwhile w =
      let (written, db) = write_copy row bytes w.db in
      let (done, db') = elim written as (λ r. Bool × Db) [
        | ok copy ↦ activate row copy now (meanwhile db)
        | err e ↦ (false, postpone row e now (meanwhile db))
      ] in
      if is_in w.in_flight row.placement.id then (false, w) else (done, record w { db = db' })

  -- `attemptCount < MAX_ATTEMPTS`, queued, and due.
  abbrev pub is_due : ℕ → Placement → Bool
  is_due now q =
      is_queued q.status
      && (ltb q.attempt_count max_attempts
          && elim q.next_attempt_at [ none ↦ true | some t ↦ leb t now ])

  -- The rows with their blobs; a placement always has one.
  abbrev work_rows : List Transport → List Placement → List WorkRow
  work_rows ts [] = []
  work_rows ts (q ∷ qs) = elim (filter (λ (t : Transport). str_eq t.blob_id q.blob_id) ts) [
    | [] ↦ work_rows ts qs
    | t ∷ more ↦ record { placement = q; blob = t } ∷ work_rows ts qs
  ]

  -- The placements of one sweep, the oldest first.
  unfoldable pub due_rows : ℕ → Db → List WorkRow
  due_rows now db = work_rows db.transports (
      take sweep_batch_size
        (sort_by (λ (q : Placement). q.created_at) (filter (is_due now) db.placements)))

  -- The loop of a worker, with what others do meanwhile in each call.
  process_each : List WorkRow → Option Bytes → ℕ → (Db → Db) → Worker → ℕ × Worker
  unfolding process_placement
  process_each [] bytes now meanwhile w = (0, w)
  process_each (row ∷ rows) bytes now meanwhile w =
      let (done, w') = process_placement row bytes now meanwhile w in
      let (n, w'') = process_each rows bytes now meanwhile w' in ((if done then 1 else 0) + n, w'')

  unfoldable pub run_replication_sweep : ℕ → (Db → Db) → Worker → ℕ × Worker
  unfolding due_rows process_each
  run_replication_sweep now meanwhile w = process_each (due_rows now w.db) none now meanwhile w

  abbrev is_pending_replica : String → Placement → Bool
  is_pending_replica blob_id q =
      str_eq q.blob_id blob_id
      && (not (is_primary q.pool_role) && elim q.status [ pending ↦ true | _ ↦ false ])

  unfoldable pub write_through_replication : String → Bytes → ℕ → (Db → Db) → Worker → Worker
  unfolding process_each
  write_through_replication blob_id bytes now meanwhile w =
      (process_each
        (work_rows w.db.transports (filter (is_pending_replica blob_id) w.db.placements))
        (some bytes) now meanwhile w).1
