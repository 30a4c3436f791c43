-- ===== src/Handlers/Blob/Sharing.antt =====
-- apps/api/src/handlers/blob.ts: what a share lets through.
use ddrive.Prelude.{
  ℕ, ◌≡◌, ap, ◌∙◌, ◌≢◌, inl, inr, true, none, some, String, arith, Bool-cases, Option-cases, eq_iff,
}
use ddrive.Processing.Chunker.{Bytes}
use ddrive.Storage.Rows.{Transport, ok}
use ddrive.Storage.ServerCrypto.{Gcm}
use ddrive.Handlers.Reading.{PoolGet}
use ddrive.Database.Rows.{Share, Db}
use ddrive.Resolvers.Files.{find_transport}
use ddrive.Resolvers.Sharing.{Hashing, find_share, opens}
use ddrive.Resolvers.Sharing.Managing.{revoke_share}
use ddrive.Resolvers.Sharing.Access.{revoke_share-find_share}
use ddrive.Resolvers.Sharing.Opening.{Opened, opens-Opened}
use ddrive.Handlers.Blob.Reach.{Reached, reaches-Reached}
use ddrive.Handlers.Blob.{
  Reply, failed, content, send_blob, share_problem, reaches, send_shared,
  handle_blob_content_for_share,
}

module _ (get : PoolGet) (g : Gcm) (key : String) (h : Hashing) where
  is_opened_share :
      (token : String) (now : ℕ) (s : Share)
      → share_problem get g key h token now s ≡ none
      → opens h now token s ≡ true
  unfolding share_problem
  is_opened_share token now s e = ground (arith, e)

  problem-content :
      (token : String) (now : ℕ) (s : Share) (bytes : Bytes)
      → share_problem get g key h token now s ≢ some (content bytes)
  unfolding share_problem
  problem-content token now s bytes e = ground (arith, e)

  -- The content of a blob is sent only for a share that is in the table, is active, has not
  -- expired, has views left and has the token that was presented; for a share of a file, only for a
  -- blob with the share's owner, of whichever file; for a share of a folder, only for a blob that
  -- is named after a file in the folder that is not deleted. The answer is that of reading the
  -- blob.
  pub handle_blob_content_for_share-content :
      (share_id token : String) (blob_id : String) (now : ℕ) (db db' : Db) (bytes : Bytes)
      → handle_blob_content_for_share get g key h (some share_id) (some token) blob_id now db
        ≡ (content bytes, db')
      → (s : Share) × (t : Transport) × (find_share share_id db ≡ some s)
        × Opened h now token s
        × (find_transport blob_id db ≡ some t)
        × Reached s t db
        × (send_blob get g key t now db ≡ (content bytes, db'))
  unfolding handle_blob_content_for_share send_shared
  handle_blob_content_for_share-content share_id token blob_id now db db' bytes sent =
      elim (Option-cases (find_share share_id db)) [
        | inl e ↦ absurd (ground (arith, sent, e))
        | inr (s, e) ↦ elim (Option-cases (share_problem get g key h token now s)) [
          | inr (reply, p) ↦ absurd (no_content s reply p (ground (arith, sent, e, p)))
          | inl p ↦ elim (Option-cases (find_transport blob_id db)) [
            | inl m ↦ absurd (ground (arith, sent, e, p, m))
            | inr (t, m) ↦ elim (Bool-cases (reaches get g key s t db)) [
              | inr barred ↦ absurd (ground (arith, sent, e, p, m, barred))
              | inl fits ↦ (
                s,
                t,
                e,
                opens-Opened h now token s (is_opened_share token now s p),
                m,
                reaches-Reached get g key s t db fits,
                ground (arith, sent, e, p, m, fits),
              )
            ]
          ]
        ]
      ]
    where
      no_content :
          (s : Share) (reply : Reply)
          → share_problem get g key h token now s ≡ some reply
          → reply ≡ content bytes
          → ⊥
      no_content s reply p e = problem-content token now s bytes (p ∙ ap some e)

  -- Where an identifier and a token are given, content for a share that its owner has revoked is
  -- answered by 410, whatever the token and the blob, and nothing changes.
  pub handle_blob_content_for_share-revoke_share :
      (owner share_id token blob_id : String) (now later : ℕ) (db : Db)
      → (revoke_share owner share_id now db).0 ≡ ok true
      → share_id ≢ ""
      → token ≢ ""
      → handle_blob_content_for_share get g key h
          (some share_id)
          (some token)
          blob_id
          later
          (revoke_share owner share_id now db).1
        ≡ (failed 410 "Share revoked", (revoke_share owner share_id now db).1)
  unfolding handle_blob_content_for_share send_shared share_problem
  handle_blob_content_for_share-revoke_share owner share_id token blob_id now later db done named
        given =
      let (s, found, gone) = revoke_share-find_share owner share_id now db done in
      ground (arith, found, gone, eq_iff share_id "", eq_iff token "", named, given)
