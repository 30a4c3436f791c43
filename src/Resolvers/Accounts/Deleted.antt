-- ===== src/Resolvers/Accounts/Deleted.antt =====
-- apps/api/src/resolvers/auth.ts: what is left of an account that has been deleted.
use ddrive.Prelude.{
  All, ℕ, ◌≤◌, ◌+◌, ◌≡◌, ◌≢◌, refl, sym, ap, subst, ◌∙◌, true, not, List, [], none, some, String,
  str_eq, find, filter, arith, str_eq_refl, eq_iff, All-mono,
}
use ddrive.Prelude.Tables.{update_many, delete_many}
use ddrive.Database.Keys.{
  UniqueKeys, keys-filter, unique-found, find-passes, filter-deleted, filter-delete_many,
}
use ddrive.Database.Updates.{
  filter-deleted_within, filter-map_none, filter-others, find-delete_many_within, update_many-All,
}
use ddrive.Database.Rows.{Db, File, Share}
use ddrive.Database.Cascades.{is_in, delete_shares, delete_transports}
use ddrive.Storage.Rows.{ok, err, Transport, Placement}
use ddrive.Resolvers.Folders.{Folder}
use ddrive.Middleware.Auth.{
  Text, AuthPayload, DeviceSession, ApiKey, AuthState, ServerConfig, verify_session_token,
  session_cache_ms,
}
use ddrive.Middleware.Auth.Requests.{Flight, began, Run}
use ddrive.Middleware.Auth.Caching.{IsClosed, Bounded}
use ddrive.Middleware.Auth.Sessions.{verify_session_token-closed}
use ddrive.Resolvers.Accounts.{Accounts, User, EmailVerification, AccountDeletion, Outside}
use ddrive.Resolvers.Accounts.Deletion.{
  detach_all, owned_blobs, owned_folders, lost_share, delete_owned, delete_user, deletion_of,
  confirm_account_deletion,
}

-- No file, folder, blob, share or copy of a blob of the user is left.
pub record NoneOwned (user_id : String) (before after : Db) : Type 0 where
  files : filter (λ (f : File). str_eq f.owner_user_id user_id) after.files ≡ []
  folders : filter (λ (f : Folder). str_eq f.owner_user_id user_id) after.folders ≡ []
  transports : filter (λ (t : Transport). str_eq t.owner_user_id user_id) after.transports ≡ []
  shares : filter (λ (s : Share). str_eq s.owner_user_id user_id) after.shares ≡ []
  placements :
      filter (λ (p : Placement). is_in (owned_blobs user_id before) p.blob_id) after.placements ≡ []

delete_owned-NoneOwned :
    (user_id : String) (db : Db) → NoneOwned user_id db (delete_owned user_id db)
unfolding delete_owned delete_shares delete_transports
delete_owned-NoneOwned user_id db = record {
  files =
      filter-map_none (λ (f : File). str_eq f.owner_user_id user_id)
        (λ f. record f {
          parent_folder_id = detach_all (owned_folders user_id db) f.parent_folder_id;
        })
        (delete_many (λ (f : File). str_eq f.owner_user_id user_id) db.files) (λ r. refl)
        (filter-deleted (λ (f : File). str_eq f.owner_user_id user_id) db.files);
  folders =
      filter-map_none (λ (f : Folder). str_eq f.owner_user_id user_id)
        (λ f. record f {
          parent_folder_id = detach_all (owned_folders user_id db) f.parent_folder_id;
        })
        (delete_many (λ (f : Folder). str_eq f.owner_user_id user_id) db.folders) (λ r. refl)
        (filter-deleted (λ (f : Folder). str_eq f.owner_user_id user_id) db.folders);
  transports =
      filter-delete_many (λ (t : Transport). str_eq t.owner_user_id user_id)
        (λ (t : Transport). is_in (owned_blobs user_id db) t.blob_id) db.transports
        (keys-filter (λ (t : Transport). t.blob_id) (λ t. str_eq t.owner_user_id user_id)
          db.transports);
  shares =
      filter-deleted_within (λ (s : Share). str_eq s.owner_user_id user_id) (lost_share user_id db)
        db.shares (λ r k. ground (arith, k));
  placements =
      filter-deleted (λ (p : Placement). is_in (owned_blobs user_id db) p.blob_id) db.placements;
}

-- What is left of an account: nothing; and the rows of others are all there.
pub record Gone (user_id : String) (before after : Accounts) : Type 0 where
  users : filter (λ (u : User). str_eq u.id user_id) after.users ≡ []
  verifications :
      filter (λ (v : EmailVerification). str_eq v.user_id user_id) after.verifications ≡ []
  account_deletions :
      filter (λ (d : AccountDeletion). str_eq d.user_id user_id) after.account_deletions ≡ []
  sessions : filter (λ (s : DeviceSession). str_eq s.user_id user_id) after.auth.sessions ≡ []
  api_keys : filter (λ (k : ApiKey). str_eq k.user_id user_id) after.auth.api_keys ≡ []
  owned : NoneOwned user_id before.db after.db
  other_users :
      filter (λ (u : User). not (str_eq u.id user_id)) after.users
      ≡ filter (λ (u : User). not (str_eq u.id user_id)) before.users
  other_sessions :
      filter (λ (s : DeviceSession). not (str_eq s.user_id user_id)) after.auth.sessions
      ≡ filter (λ (s : DeviceSession). not (str_eq s.user_id user_id)) before.auth.sessions
  other_api_keys :
      filter (λ (k : ApiKey). not (str_eq k.user_id user_id)) after.auth.api_keys
      ≡ filter (λ (k : ApiKey). not (str_eq k.user_id user_id)) before.auth.api_keys

mark_used : AccountDeletion → ℕ → Accounts → Accounts
mark_used row now w = record w {
  account_deletions =
      update_many (λ (d : AccountDeletion). str_eq d.id row.id)
        (λ d. record d { used_at = some now }) w.account_deletions;
}

delete_user-Gone :
    (row : AccountDeletion) (now : ℕ) (w : Accounts)
    → Gone row.user_id w (delete_user row.user_id (mark_used row now w))
unfolding delete_user mark_used
delete_user-Gone row now w =
    let id = row.user_id in
    record {
      users = filter-deleted (λ (u : User). str_eq u.id id) w.users;
      verifications =
          filter-deleted (λ (v : EmailVerification). str_eq v.user_id id) w.verifications;
      account_deletions =
          filter-deleted (λ (d : AccountDeletion). str_eq d.user_id id)
            (mark_used row now w).account_deletions;
      sessions = filter-deleted (λ (s : DeviceSession). str_eq s.user_id id) w.auth.sessions;
      api_keys = filter-deleted (λ (k : ApiKey). str_eq k.user_id id) w.auth.api_keys;
      owned = delete_owned-NoneOwned id w.db;
      other_users = filter-others (λ (u : User). str_eq u.id id) w.users;
      other_sessions = filter-others (λ (s : DeviceSession). str_eq s.user_id id) w.auth.sessions;
      other_api_keys = filter-others (λ (k : ApiKey). str_eq k.user_id id) w.auth.api_keys;
    }

-- No deletion of the token is left, if tokens are unique.
delete_user-deletion :
    (hash : String) (row : AccountDeletion) (now : ℕ) (w : Accounts)
    → UniqueKeys (λ (d : AccountDeletion). d.token_hash) w.account_deletions
    → find (deletion_of hash) w.account_deletions ≡ some row
    → find (deletion_of hash) (delete_user row.user_id (mark_used row now w)).account_deletions
      ≡ none
unfolding delete_user mark_used
delete_user-deletion hash row now w unique e =
    find-delete_many_within (deletion_of hash)
      (λ (d : AccountDeletion). str_eq d.user_id row.user_id)
      (mark_used row now w).account_deletions
      (update_many-All (λ d. deletion_of hash d ≡ true → str_eq d.user_id row.user_id ≡ true)
        (λ d. str_eq d.id row.id) (λ d. record d { used_at = some now }) w.account_deletions
        (λ r k. k)
        (All-mono (λ d. str_eq d.token_hash row.token_hash ≡ true → d ≡ row)
          (λ d. deletion_of hash d ≡ true → str_eq d.user_id row.user_id ≡ true)
          (λ d same k.
            let d_is : d ≡ row = same (
              ground (
                arith,
                k,
                find-passes (deletion_of hash) w.account_deletions row e,
                eq_iff d.token_hash hash,
                eq_iff row.token_hash hash,
                eq_iff d.token_hash row.token_hash,
              )) in
            subst (λ x. str_eq x.user_id row.user_id ≡ true) (sym d_is) (str_eq_refl row.user_id))
          w.account_deletions
          (unique-found (λ (d : AccountDeletion). d.token_hash) (deletion_of hash)
            w.account_deletions row unique e)))

deleted_session-IsClosed :
    (user_id : String) (s : DeviceSession) (rows : List DeviceSession)
    → UniqueKeys (λ (r : DeviceSession). r.id) rows
    → find (λ (r : DeviceSession). str_eq r.id s.id) rows ≡ some s
    → s.user_id ≡ user_id
    → (now : ℕ)
    → IsClosed now s.id (delete_many (λ (r : DeviceSession). str_eq r.user_id user_id) rows)
deleted_session-IsClosed user_id s rows unique found owned now =
    let none_left =
      find-delete_many_within (λ (r : DeviceSession). str_eq r.id s.id)
        (λ r. str_eq r.user_id user_id) rows
        (All-mono (λ r. str_eq r.id s.id ≡ true → r ≡ s)
          (λ r. str_eq r.id s.id ≡ true → str_eq r.user_id user_id ≡ true)
          (λ r same k.
            subst (λ x. str_eq x.user_id user_id ≡ true) (sym (same k))
              (ground (arith, eq_iff s.user_id user_id, owned)))
          rows
          (unique-found (λ (r : DeviceSession). r.id) (λ r. str_eq r.id s.id) rows s unique
            found)) in
    ground (arith, none_left)

module _ (o : Outside) where
  -- The one way in which a deletion succeeds.
  confirmed :
      (token : String) (now : ℕ) (w : Accounts) (row : AccountDeletion)
      → find (deletion_of (o.hashing.sha256_hex token)) w.account_deletions ≡ some row
      → (confirm_account_deletion o token now w).0 ≡ ok true
      → (confirm_account_deletion o token now w).1 ≡ delete_user row.user_id (mark_used row now w)
  unfolding confirm_account_deletion mark_used
  confirmed token now w row e done = ground (arith, e, done)

  unknown_token :
      (token : String) (now : ℕ) (w : Accounts)
      → find (deletion_of (o.hashing.sha256_hex token)) w.account_deletions ≡ none
      → confirm_account_deletion o token now w ≡ (err "Invalid deletion token", w)
  unfolding confirm_account_deletion
  unknown_token token now w e = ground (arith, e)

  -- If a deletion that a token names is confirmed with success, and tokens are unique, then no row of the
  -- account is left in any table, neither users, verifications, deletions, sessions, API keys, files,
  -- folders, blobs nor shares, nor a copy of one of its blobs; all other users, sessions and keys are left;
  -- and the token names no deletion any more.
  pub confirm_account_deletion-Gone :
      (token : String) (now later : ℕ) (w : Accounts) (row : AccountDeletion)
      → UniqueKeys (λ (d : AccountDeletion). d.token_hash) w.account_deletions
      → find (deletion_of (o.hashing.sha256_hex token)) w.account_deletions ≡ some row
      → (confirm_account_deletion o token now w).0 ≡ ok true
      → let w' = (confirm_account_deletion o token now w).1 in
        Gone row.user_id w w'
        × (confirm_account_deletion o token later w' ≡ (err "Invalid deletion token", w'))
  confirm_account_deletion-Gone token now later w row unique e done =
      rw (confirmed token now w row e done) (
        delete_user-Gone row now w,
        unknown_token token later (delete_user row.user_id (mark_used row now w))
            (delete_user-deletion (o.hashing.sha256_hex token) row now w unique e),
      )

  -- If a deletion is confirmed with success when the cache holds no answer for longer than a minute, and
  -- identifiers of sessions, which are not empty, are unique, and no look-up under way began later, then from a minute on every valid token that
  -- names a session of the account is refused, whatever requests were made meanwhile, as long as the table
  -- keeps the session closed.
  pub confirm_account_deletion-verify_session_token :
      (cfg : ServerConfig) (token : String) (now : ℕ) (w : Accounts) (row : AccountDeletion)
      (s : DeviceSession) (fs : List Flight) {t1 : ℕ} {st1 : AuthState} {fs1 : List Flight}
      (presented : Text) (payload : AuthPayload) (later : ℕ)
      → find (deletion_of (o.hashing.sha256_hex token)) w.account_deletions ≡ some row
      → (confirm_account_deletion o token now w).0 ≡ ok true
      → Bounded now w.auth
      → UniqueKeys (λ (r : DeviceSession). r.id) w.auth.sessions
      → find (λ (r : DeviceSession). str_eq r.id s.id) w.auth.sessions ≡ some s
      → s.user_id ≡ row.user_id
      → All (λ f. began f ≤ now) fs
      → Run o.tokens cfg
          (λ rows keys. IsClosed now s.id rows)
          now
          (confirm_account_deletion o token now w).1.auth
          fs
          t1
          st1
          fs1
      → now + session_cache_ms ≤ later
      → o.tokens.verify_token presented later ≡ ok payload
      → payload.sid ≡ some s.id
      → s.id ≢ ""
      → (verify_session_token o.tokens presented later st1).0 ≡ err "Session revoked or expired"
  confirm_account_deletion-verify_session_token cfg token now w row s fs {t1} {st1} {fs1} presented
        payload later e done bounded unique found owned begun run late valid named proper =
      let closed = deleted_session-IsClosed row.user_id s w.auth.sessions unique found owned now in
      let after : AuthState = record w.auth {
        sessions =
            delete_many (λ (r : DeviceSession). str_eq r.user_id row.user_id) w.auth.sessions;
        api_keys = delete_many (λ (k : ApiKey). str_eq k.user_id row.user_id) w.auth.api_keys;
      } in
      let is_after : (confirm_account_deletion o token now w).1.auth ≡ after =
        ap (λ (x : Accounts). x.auth) (confirmed token now w row e done)
        ∙ (unfold delete_user mark_used in refl) in
      let run' : Run o.tokens cfg (λ rows keys. IsClosed now s.id rows) now after fs t1 st1 fs1 =
        subst (λ x. Run o.tokens cfg (λ rows keys. IsClosed now s.id rows) now x fs t1 st1 fs1)
          is_after run in
      let bounded' : Bounded now after = bounded in
      verify_session_token-closed o.tokens cfg s.id presented payload later bounded' begun closed
        run' late valid named proper
