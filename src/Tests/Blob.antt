-- ===== src/Tests/Blob.antt =====
-- apps/api/src/handlers/blob.ts: the content of a shared blob, and a blob that is uploaded and read.
use ddrive.Prelude.{
  ◌≡◌, refl, sym, ap, ◌≢◌, inl, true, false, if◌then◌else◌, [], ◌∷◌, ◌++◌, none, some, String, find,
  filter, replicate, arith, eq_iff,
}
use ddrive.Prelude.Slices.{slice}
use ddrive.Prelude.Sort.{sort_by}
use ddrive.Prelude.Texts.{codes}
use ddrive.Processing.Chunker.{Bytes}
use ddrive.Storage.Rows.{Transport, PlacementWriteResult, local, discord, ok, err}
use ddrive.Storage.Provider.{order_placements_for_read}
use ddrive.Storage.ServerCrypto.{Gcm, GcmLaws, get_key, encrypt_server_side, decrypt_server_side}
use ddrive.Handlers.Reading.{PoolGet, read_blob_bytes, fetch}
use ddrive.Middleware.Auth.{ResolvedAuth, jwt}
use ddrive.Handlers.Blob.{
  content, uploaded, UploadReply, send_blob, reaches, handle_blob_content,
  handle_blob_content_for_share, auth_or_response,
}
use ddrive.Handlers.Blob.Uploads.{Storage, handle_blob_upload, handle_blob_upload_as}
use ddrive.Handlers.Blob.RoundTrip.{Keeps, handle_blob_content-handle_blob_upload}
use ddrive.Resolvers.Sharing.Opening.{Opened}
use ddrive.Handlers.Blob.Reach.{Reached}
use ddrive.Handlers.Blob.Sharing.{handle_blob_content_for_share-content}
use ddrive.Database.Rows.{Share, Db}
use ddrive.Resolvers.Files.{find_transport}
use ddrive.Resolvers.Sharing.{same_bytes, find_share}
use ddrive.Resolvers.Sharing.Managing.{revoke_share}
use ddrive.Tests.Database.{hashing, tables}

abbrev plain_gcm : Gcm
plain_gcm = record {
  from_base64 = λ raw. replicate 32 0;
  encrypt = λ key iv p. (p, replicate 16 0);
  decrypt = λ key iv tag c. some c;
}

abbrev stored : PoolGet
stored kind role ref = ok (replicate 12 0 ++ 7 ∷ replicate 16 0)

sent :
    handle_blob_content_for_share stored plain_gcm "k" hashing
      (some "s1")
      (some "t")
      "f1:chunk:0"
      9
      tables
    ≡ (content (7 ∷ []), tables)
unfolding handle_blob_content_for_share send_blob reaches read_blob_bytes fetch
    order_placements_for_read sort_by filter find codes decrypt_server_side get_key slice
sent = refl

handle_blob_content_for_share-content_example :
    (s : Share) × (t : Transport) × (find_share "s1" tables ≡ some s)
    × Opened hashing 9 "t" s
    × (find_transport "f1:chunk:0" tables ≡ some t)
    × Reached s t tables
    × (send_blob stored plain_gcm "k" t 9 tables ≡ (content (7 ∷ []), tables))
handle_blob_content_for_share-content_example =
    handle_blob_content_for_share-content stored plain_gcm "k" hashing "s1" "t" "f1:chunk:0" 9
      tables tables (7 ∷ []) sent

revoked_ok : (revoke_share "u1" "s1" 9 tables).0 ≡ ok true
unfolding revoke_share find
revoked_ok = refl

share_named : ◌≢◌ {A = String} "s1" ""
share_named e = ground (arith, e, eq_iff "s1" "")

token_given : ◌≢◌ {A = String} "t" ""
token_given e = ground (arith, e, eq_iff "t" "")

-- A pool that takes one content, and delivers it.
abbrev sealed : Bytes
sealed = replicate 12 0 ++ 7 ∷ replicate 16 0

abbrev where_it_is : PlacementWriteResult
where_it_is = record {
  provider = local;
  storage_path = "p0";
  message_id = none;
  location_id = none;
  sender_id = none;
}

abbrev storage : Storage
storage = record {
  gcm = plain_gcm;
  key = "k";
  sha256 = λ bytes. "hash";
  pool = record {
    kind = local;
    put = λ owner blob_id bytes. if same_bytes bytes sealed then ok where_it_is else err "full";
  };
  replica_kinds = discord ∷ [];
  id_of = λ blob_id kind role. "p1";
}

plain-GcmLaws : GcmLaws plain_gcm
plain-GcmLaws = record {
  length_ciphertext = λ key iv p. refl;
  length_tag = λ key iv p. refl;
  decrypt-encrypt = λ key iv p. refl;
}

same_bytes-eq : (xs ys : Bytes) → same_bytes xs ys ≡ true → xs ≡ ys
same_bytes-eq [] [] e = refl
same_bytes-eq [] (y ∷ ys) e = absurd (let bad : false ≡ true = e in cc)
same_bytes-eq (x ∷ xs) [] e = absurd (let bad : false ≡ true = e in cc)
same_bytes-eq (x ∷ xs) (y ∷ ys) e = ground (arith, e, same_bytes-eq xs ys)

storage-Keeps : Keeps stored storage.pool
storage-Keeps owner blob_id bytes w put =
    ap ok (sym (same_bytes-eq bytes sealed (ground (arith, put))))

abbrev owner : ResolvedAuth
owner = record {
  payload = record { user_id = "u1"; email = ""; sid = none };
  via = jwt;
  api_key_auth_part = none;
}

-- A blob that is there, uploaded anew.
abbrev answer : UploadReply
answer = record {
  blob_id = "f1:chunk:0";
  size_bytes = 29;
  content_hash = "hash";
  storage_kind = local;
  written = where_it_is;
}

abbrev after_upload : Db
after_upload =
    (handle_blob_upload storage (ok (some owner)) "f1:chunk:0" (7 ∷ []) (replicate 12 0) 20
      tables).1

upload_succeeds :
    handle_blob_upload storage (ok (some owner)) "f1:chunk:0" (7 ∷ []) (replicate 12 0) 20 tables
    ≡ (uploaded answer, after_upload)
unfolding handle_blob_upload auth_or_response handle_blob_upload_as find encrypt_server_side get_key
upload_succeeds = refl

handle_blob_content-handle_blob_upload_example :
    handle_blob_content stored plain_gcm "k" (ok (some owner)) none "f1:chunk:0" 30 after_upload
    ≡ (content (7 ∷ []), after_upload)
handle_blob_content-handle_blob_upload_example =
    handle_blob_content-handle_blob_upload storage stored plain-GcmLaws storage-Keeps owner owner
      none "f1:chunk:0" (7 ∷ []) (replicate 12 0) 20 30 tables after_upload answer refl
      ((λ k. tt), tt) (inl kinds_given) refl upload_succeeds
  where
    kinds_given : discord ∷ [] ≢ []
    kinds_given e = cc
