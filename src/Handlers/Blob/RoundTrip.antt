-- ===== src/Handlers/Blob/RoundTrip.antt =====
-- apps/api/src/handlers/blob.ts: a blob that is uploaded is read back.
use ddrive.Prelude.{
  ℕ, ◌≡◌, refl, sym, ap, ◌∙◌, subst, ◌⊎◌, inl, inr, ◌≢◌, true, List, [], ◌∷◌, Option, some, String,
  arith, find, filter, str_eq, str_eq_refl, length, All, Bool-cases, Option-cases, eq_iff,
}
use ddrive.Processing.Chunker.{Bytes}
use ddrive.Storage.Rows.{primary, Placement, PlacementWriteResult, Transport, ok, Result-cases}
use ddrive.Storage.Provider.{is_readable, order_placements_for_read}
use ddrive.Storage.Provider.Order.{order_placements_for_read_one}
use ddrive.Storage.ServerCrypto.{GcmLaws, encrypt_server_side, decrypt_server_side}
use ddrive.Storage.ServerCrypto.RoundTrip.{decrypt-encrypt_server_side}
use ddrive.Handlers.Reading.{PoolGet, fetch}
use ddrive.Handlers.Reading.Outcome.{read_blob_bytes_one}
use ddrive.Middleware.Auth.{ResolvedAuth}
use ddrive.Database.Rows.{Db}
use ddrive.Resolvers.Files.{find_transport}
use ddrive.Resolvers.Files.Trash.{placements_of}
use ddrive.Handlers.Blob.{
  content, uploaded, UploadReply, auth_or_response, send_blob, handle_blob_content,
}
use ddrive.Handlers.Blob.Uploads.{
  PrimaryPool, Stored, Storage, upsert, update_transport, create_transport, record_upload,
  store_blob, handle_blob_upload_as, handle_blob_upload,
}
use ddrive.Handlers.Blob.Uploading.{OnePrimary, IsSilent, At, one_readable, of_blob}

-- What a pool has stored it delivers, where `put` said that it stands.
abbrev pub Keeps : PoolGet → PrimaryPool → Type 0
Keeps get pool =
    (owner blob_id : String) (bytes : Bytes) (w : PlacementWriteResult)
    → pool.put owner blob_id bytes ≡ ok w
    → get pool.kind primary (record {
      blob_id = blob_id;
      owner_user_id = owner;
      provider = pool.kind;
      storage_path = w.storage_path;
      message_id = w.message_id;
      location_id = w.location_id;
      sender_id = w.sender_id;
    })
      ≡ ok bytes

-- The row of a blob behind an upload of it.
upserted :
    (s : Stored) (now : ℕ) (ts : List Transport)
    → (t : Transport) × (find
          (λ (x : Transport). str_eq x.blob_id s.blob_id)
          (upsert
            (λ (x : Transport). str_eq x.blob_id s.blob_id)
            (update_transport s)
            (create_transport s now)
            ts)
        ≡ some t)
      × (t.blob_id ≡ s.blob_id)
      × (t.owner_user_id ≡ s.owner)
unfolding upsert find
upserted s now [] = (create_transport s now, ground (arith, str_eq_refl s.blob_id), refl, refl)
upserted s now (t ∷ ts) = elim (Bool-cases (str_eq t.blob_id s.blob_id)) [
  | inl e ↦ (update_transport s t, ground (arith, e), (eq_iff t.blob_id s.blob_id).0 e, refl)
  | inr e ↦
      let (u, found, id, owner) = upserted s now ts in (u, ground (arith, e, found), id, owner)
]

-- What `store_blob` has stored.
abbrev stored_as : Storage → String → String → Bytes → PlacementWriteResult → Stored
stored_as st owner blob_id sealed written = record {
  owner = owner;
  blob_id = blob_id;
  kind = st.pool.kind;
  written = written;
  size_bytes = length sealed;
  content_hash = st.sha256 sealed;
}

store_blob-stored :
    (st : Storage) (owner blob_id : String) (plaintext iv : Bytes) (now : ℕ) (db db' : Db)
    (reply : UploadReply)
    → store_blob st owner blob_id plaintext iv now db ≡ (uploaded reply, db')
    → (sealed : Bytes) × (written : PlacementWriteResult) × (encrypt_server_side st.gcm st.key iv
          plaintext
        ≡ ok sealed)
      × (st.pool.put owner blob_id sealed ≡ ok written)
      × (record_upload st.id_of st.replica_kinds (stored_as st owner blob_id sealed written) now db
          ≡ db')
unfolding store_blob
store_blob-stored st owner blob_id plaintext iv now db db' reply e =
    elim (Result-cases (encrypt_server_side st.gcm st.key iv plaintext)) [
      | inr (m, bad) ↦ absurd (ground (arith, e, bad))
      | inl (sealed, good) ↦ elim (Result-cases (st.pool.put owner blob_id sealed)) [
        | inr (m, bad) ↦ absurd (ground (arith, e, good, bad))
        | inl (written, put) ↦ (sealed, written, good, put, ground (arith, e, good, put))
      ]
    ]

-- An upload that is answered with success has stored the blob for the caller.
handle_blob_upload-stored :
    (st : Storage) (auth : ResolvedAuth) (blob_id : String) (plaintext iv : Bytes) (now : ℕ)
    (db db' : Db) (reply : UploadReply)
    → handle_blob_upload st (ok (some auth)) blob_id plaintext iv now db ≡ (uploaded reply, db')
    → store_blob st auth.payload.user_id blob_id plaintext iv now db ≡ (uploaded reply, db')
unfolding handle_blob_upload auth_or_response handle_blob_upload_as
handle_blob_upload-stored st auth blob_id plaintext iv now db db' reply e =
    elim (Option-cases (find_transport blob_id db)) [
      | inl f ↦ ground (arith, e, f)
      | inr (t, f) ↦ elim (Bool-cases (str_eq t.owner_user_id auth.payload.user_id)) [
        | inl o ↦ ground (arith, e, f, o)
        | inr o ↦ absurd (ground (arith, e, f, o))
      ]
    ]

module _ (st : Storage) (get : PoolGet) (laws : GcmLaws st.gcm) (keeps : Keeps get st.pool) where
  -- The blob's row and the one copy that can be read, behind the transaction of an upload.
  sent_back :
      (owner blob_id : String) (sealed plaintext : Bytes) (written : PlacementWriteResult)
      (t : Transport) (p : Placement) (later : ℕ) (db : Db)
      → st.pool.put owner blob_id sealed ≡ ok written
      → decrypt_server_side st.gcm st.key sealed ≡ ok plaintext
      → t.blob_id ≡ blob_id
      → t.owner_user_id ≡ owner
      → order_placements_for_read (placements_of db t) ≡ p ∷ []
      → At (stored_as st owner blob_id sealed written) p
      → send_blob get st.gcm st.key t later db ≡ (content plaintext, db)
  unfolding send_blob fetch
  sent_back owner blob_id sealed plaintext written t p later db put opened id mine one
        (act, ref, kind, role) =
      let delivered : fetch get later t.blob_id t.owner_user_id p ≡ ok sealed =
        (let stored = keeps owner blob_id sealed written put in cc) in
      let read =
        read_blob_bytes_one get later t (placements_of db t) db.placements p sealed one delivered in
      ground (arith, read, opened)

  owner_reads :
      (reader : ResolvedAuth) (session : Option String) (blob_id : String) (later : ℕ) (db : Db)
      (t : Transport)
      → find_transport blob_id db ≡ some t
      → str_eq t.owner_user_id reader.payload.user_id ≡ true
      → handle_blob_content get st.gcm st.key (ok (some reader)) session blob_id later db
        ≡ send_blob get st.gcm st.key t later db
  unfolding handle_blob_content auth_or_response
  owner_reads reader session blob_id later db t found same = ground (arith, found, same)

  read_back :
      (reader : ResolvedAuth) (session : Option String) (blob_id : String)
      (sealed plaintext : Bytes) (written : PlacementWriteResult) (now later : ℕ) (db : Db)
      → st.pool.put reader.payload.user_id blob_id sealed ≡ ok written
      → decrypt_server_side st.gcm st.key sealed ≡ ok plaintext
      → OnePrimary blob_id st.pool.kind db.placements
      → (st.replica_kinds ≢ []) ⊎ All (IsSilent blob_id) db.placements
      → handle_blob_content get st.gcm st.key (ok (some reader)) session blob_id later (
          record_upload st.id_of st.replica_kinds
            (stored_as st reader.payload.user_id blob_id sealed written)
            now
            db)
        ≡ (
          content plaintext,
          record_upload st.id_of st.replica_kinds
              (stored_as st reader.payload.user_id blob_id sealed written)
              now
              db,
        )
  unfolding record_upload
  read_back reader session blob_id sealed plaintext written now later db put opened one quiet =
      let s = stored_as st reader.payload.user_id blob_id sealed written in
      let after = record_upload st.id_of st.replica_kinds s now db in
      let (t, found, id, mine) = upserted s now db.transports in
      let (p, rows, at) = one_readable st.id_of s now st.replica_kinds db.placements one quiet in
      let single = order_placements_for_read_one (placements_of after t) p (
        subst (λ x. filter is_readable (filter (of_blob x) after.placements) ≡ p ∷ []) (sym id)
          rows) in
      let sent =
        sent_back reader.payload.user_id blob_id sealed plaintext written t p later after put opened
          id mine single at in
      let same : str_eq t.owner_user_id reader.payload.user_id ≡ true =
        (eq_iff t.owner_user_id reader.payload.user_id).1 mine in
      owner_reads reader session blob_id later after t found same ∙ sent

  -- Under the laws of the cipher, with a 12-byte IV and a pool that delivers what it stored where it said
  -- that it stands: once an upload of a blob has been answered with success, its owner reads back what
  -- was uploaded, whatever rows there were before, if the primary copies of the blob on the pool's
  -- provider were unique, and a replica pool is configured or no replica of the blob could be read.
  pub handle_blob_content-handle_blob_upload :
      (auth reader : ResolvedAuth) (session : Option String) (blob_id : String)
      (plaintext iv : Bytes) (now later : ℕ) (db db' : Db) (reply : UploadReply)
      → length iv ≡ 12
      → OnePrimary blob_id st.pool.kind db.placements
      → (st.replica_kinds ≢ []) ⊎ All (IsSilent blob_id) db.placements
      → reader.payload.user_id ≡ auth.payload.user_id
      → handle_blob_upload st (ok (some auth)) blob_id plaintext iv now db ≡ (uploaded reply, db')
      → handle_blob_content get st.gcm st.key (ok (some reader)) session blob_id later db'
        ≡ (content plaintext, db')
  handle_blob_content-handle_blob_upload auth reader session blob_id plaintext iv now later db db'
        reply iv12 one quiet owner done =
      let (sealed, written, good, put, rows) =
        store_blob-stored st auth.payload.user_id blob_id plaintext iv now db db' reply
          (handle_blob_upload-stored st auth blob_id plaintext iv now db db' reply done) in
      let opened =
        (decrypt-encrypt_server_side st.gcm laws st.key iv plaintext sealed iv12 good).0 in
      let put' : st.pool.put reader.payload.user_id blob_id sealed ≡ ok written = rw owner put in
      let back =
        read_back reader session blob_id sealed plaintext written now later db put' opened one
          quiet in
      subst
        (λ (x : Db).
          handle_blob_content get st.gcm st.key (ok (some reader)) session blob_id later x
          ≡ (content plaintext, x))
        (ap
            (λ o.
              record_upload st.id_of st.replica_kinds (stored_as st o blob_id sealed written) now
                db)
            owner
          ∙ rows)
        back
