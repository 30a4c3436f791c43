-- ===== src/Resolvers/Accounts/Revoking.antt =====
-- apps/api/src/resolvers/auth.ts and middleware/auth.ts: what a reset of the password shuts out.
use ddrive.Prelude.{
  ℕ, ◌≡◌, ◌≢◌, refl, sym, subst, ◌∙◌, Bool, true, false, not, ◌&&◌, List, [], ◌∷◌, none, some,
  String, map, str_eq, if◌then◌else◌, filter, find, any, arith, eq_iff, All, ◌≤◌,
}
use ddrive.Prelude.Tables.{lookup, lookup-erase}
use ddrive.Database.Keys.{find-All, keys-filter}
use ddrive.Database.Updates.{find-update_through, find_by_key}
use ddrive.Storage.Rows.{ok, err}
use ddrive.Middleware.Auth.{
  Text, AuthPayload, DeviceSession, AuthState, ServerConfig, is_null, verify_session_token,
  invalidate_session_cache,
}
use ddrive.Middleware.Auth.Requests.{Flight, Run}
use ddrive.Middleware.Auth.Caching.{GoodUntil, IsClosed, Unseen}
use ddrive.Middleware.Auth.Sessions.{verify_session_token-shut}
use ddrive.Resolvers.Accounts.{
  Accounts, User, Outside, find_user, hash_password, update_user, update_session,
}
use ddrive.Resolvers.Accounts.Sessions.{refresh_session}
use ddrive.Resolvers.Accounts.Passwords.{
  revoke_each, live_session, revoke_all, can_reset, reset_password,
}

-- The row that a test finds, as it is left.
record Left (s : DeviceSession) (sids : List String) (s' : DeviceSession) : Type 0 where
  id : s'.id ≡ s.id
  user_id : s'.user_id ≡ s.user_id
  revoked : is_null s'.revoked_at ≡ (is_null s.revoked_at && not (any (str_eq s.id) sids))

revoke_each-found :
    (q : DeviceSession → Bool) (sids : List String) (now : ℕ) (st : AuthState) (s : DeviceSession)
    → ((r : DeviceSession) → q (record r { revoked_at = some now }) ≡ q r)
    → find q st.sessions ≡ some s
    → (s' : DeviceSession) × (find q (revoke_each sids now st).sessions ≡ some s') × Left s sids s'
unfolding revoke_each
revoke_each-found q [] now st s keeps e =
    (s, e, record { id = refl; user_id = refl; revoked = ground arith })
revoke_each-found q (sid ∷ sids) now st s keeps e =
    let s1 : DeviceSession = if str_eq s.id sid then record s { revoked_at = some now } else s in
    let st' =
      invalidate_session_cache sid
        (update_session sid (λ r. record r { revoked_at = some now }) st) in
    let e1 : find q st'.sessions ≡ some s1 =
      unfold invalidate_session_cache update_session in
      find-update_through (λ (r : DeviceSession). str_eq r.id sid) q
        (λ r. record r { revoked_at = some now }) st.sessions s keeps e in
    let (s', found, left) = revoke_each-found q sids now st' s1 keeps e1 in
    (
      s',
      found,
      record {
        id = ground (arith, left.id);
        user_id = ground (arith, left.user_id);
        revoked = ground (arith, left.revoked);
      },
    )

revoke_each-lookup :
    (asked : String) (sids : List String) (now : ℕ) (st : AuthState)
    → lookup asked (revoke_each sids now st).session_cache
      ≡ (if any (str_eq asked) sids then none else lookup asked st.session_cache)
unfolding revoke_each update_session invalidate_session_cache
revoke_each-lookup asked [] now st = refl
revoke_each-lookup asked (sid ∷ sids) now st =
    let st' =
      invalidate_session_cache sid
        (update_session sid (λ r. record r { revoked_at = some now }) st) in
    ground (
      arith,
      revoke_each-lookup asked sids now st',
      lookup-erase sid asked st.session_cache,
      eq_iff asked sid,
      eq_iff sid asked,
    )

-- A session of the user is among those that are revoked, if it is not revoked.
live-listed :
    (q : DeviceSession → Bool) (user_id : String) (rows : List DeviceSession) (s : DeviceSession)
    → find q rows ≡ some s
    → live_session user_id s ≡ true
    → any (str_eq s.id) (map (λ (r : DeviceSession). r.id) (filter (live_session user_id) rows))
      ≡ true
live-listed q user_id rows s e live =
    find-All
      (λ r.
        live_session user_id r ≡ true
        → any (str_eq r.id) (map (λ (x : DeviceSession). x.id) (filter (live_session user_id) rows))
          ≡ true)
      q rows s (keys-filter (λ (r : DeviceSession). r.id) (live_session user_id) rows) e live

-- No row of the user that a test finds, which does not read `revokedAt`, is live afterwards.
revoke_all-found :
    (q : DeviceSession → Bool) (user_id : String) (now : ℕ) (st : AuthState) (s : DeviceSession)
    → ((r : DeviceSession) → q (record r { revoked_at = some now }) ≡ q r)
    → find q st.sessions ≡ some s
    → s.user_id ≡ user_id
    → (s' : DeviceSession) × (find q (revoke_all user_id now st).sessions ≡ some s')
      × (s'.user_id ≡ user_id)
      × (is_null s'.revoked_at ≡ false)
unfolding revoke_all
revoke_all-found q user_id now st s keeps e owned =
    let sids = map (λ (r : DeviceSession). r.id) (filter (live_session user_id) st.sessions) in
    let (s', found, left) = revoke_each-found q sids now st s keeps e in
    (
      s',
      found,
      left.user_id ∙ owned,
      ground (
        arith,
        left.revoked,
        eq_iff s.user_id user_id,
        owned,
        live-listed q user_id st.sessions s e,
      ),
    )

-- The cache has no answer for a session of the user that was live.
revoke_all-lookup :
    (q : DeviceSession → Bool) (user_id : String) (now : ℕ) (st : AuthState) (s : DeviceSession)
    → find q st.sessions ≡ some s
    → live_session user_id s ≡ true
    → lookup s.id (revoke_all user_id now st).session_cache ≡ none
unfolding revoke_all
revoke_all-lookup q user_id now st s e live =
    let sids = map (λ (r : DeviceSession). r.id) (filter (live_session user_id) st.sessions) in
    ground (arith, revoke_each-lookup s.id sids now st, live-listed q user_id st.sessions s e live)

-- The row of a user who is found, as the reset leaves it.
reset-user :
    (o : Outside) (token new_password salt : String) (now : ℕ) (w : Accounts) (u : User)
    → find (can_reset (o.hashing.sha256_hex token) now) w.users ≡ some u
    → (u' : User) × (find_user u.id (reset_password o token new_password salt now w).1.users
        ≡ some u')
unfolding reset_password update_user
reset-user o token new_password salt now w u e =
    let (v, found) =
      find_by_key (λ (r : User). r.id) (can_reset (o.hashing.sha256_hex token) now) w.users u e in
    let f = λ (r : User). record r {
      password_hash = hash_password o salt new_password;
      password_reset_token = none;
      password_reset_expires = none;
    } in
    let through =
      find-update_through (λ (r : User). str_eq r.id u.id) (λ r. str_eq r.id u.id) f w.users v
        (λ r. refl) found in
    (if str_eq v.id u.id then f v else v, ground (arith, e, through))

-- No token is given for a session that is revoked.
refresh_session-revoked :
    (o : Outside) (refresh_token : String) (now : ℕ) (w : Accounts) (s : DeviceSession) (u : User)
    → find
        (λ (r : DeviceSession). str_eq r.refresh_token_hash (o.hashing.sha256_hex refresh_token))
        w.auth.sessions
      ≡ some s
    → find_user s.user_id w.users ≡ some u
    → is_null s.revoked_at ≡ false
    → refresh_session o refresh_token now w ≡ (err "Invalid or expired session", w)
unfolding refresh_session
refresh_session-revoked o refresh_token now w s u found there gone =
    ground (arith, found, there, gone)

module _ (o : Outside) where
  -- If a user is found by a reset token that has not expired, and a device session of the user, not
  -- revoked, by its identifier, which is not empty, and no look-up of the session that is under way
  -- at the reset has found it open: the reset with the token succeeds, and from then on every valid
  -- token that names the session is refused at once, whatever requests were made meanwhile and in
  -- whatever order their look-ups are answered and written to the cache, as long as the table does
  -- not hold a row that would have been open at the reset.
  pub reset_password-verify_session_token :
      (cfg : ServerConfig) (token new_password salt : String) (now : ℕ) (w : Accounts) (u : User)
      (s : DeviceSession) (fs : List Flight) {t1 : ℕ} {st1 : AuthState} {fs1 : List Flight}
      (presented : Text) (payload : AuthPayload) (later : ℕ)
      → find (can_reset (o.hashing.sha256_hex token) now) w.users ≡ some u
      → find (λ (r : DeviceSession). str_eq r.id s.id) w.auth.sessions ≡ some s
      → s.user_id ≡ u.id
      → s.revoked_at ≡ none
      → All (Unseen s.id) fs
      → Run o.tokens cfg
          (λ rows keys. IsClosed now s.id rows)
          now
          (reset_password o token new_password salt now w).1.auth
          fs
          t1
          st1
          fs1
      → t1 ≤ later
      → o.tokens.verify_token presented later ≡ ok payload
      → payload.sid ≡ some s.id
      → s.id ≢ ""
      → ((reset_password o token new_password salt now w).0 ≡ ok true)
        × ((verify_session_token o.tokens presented later st1).0 ≡ err "Session revoked or expired")
  reset_password-verify_session_token cfg token new_password salt now w u s fs {t1} {st1} {fs1}
        presented payload later user_found found owned live unseen run late valid named proper =
      let after = revoke_all u.id now w.auth in
      let is_after : (reset_password o token new_password salt now w).1.auth ≡ after =
        unfold reset_password update_user in ground (arith, user_found) in
      let run' : Run o.tokens cfg (λ rows keys. IsClosed now s.id rows) now after fs t1 st1 fs1 =
        subst (λ x. Run o.tokens cfg (λ rows keys. IsClosed now s.id rows) now x fs t1 st1 fs1)
          is_after run in
      let closed : IsClosed now s.id after.sessions =
        let (s', found', same, gone) =
          revoke_all-found (λ (r : DeviceSession). str_eq r.id s.id) u.id now w.auth s (λ r. refl)
            found owned in
        ground (arith, found', gone) in
      let good : GoodUntil s.id 0 after = λ c cached. absurd (
        let none_some : none ≡ some c = ground (
          arith,
          cached,
          revoke_all-lookup (λ (r : DeviceSession). str_eq r.id s.id) u.id now w.auth s found,
          eq_iff s.user_id u.id,
          owned,
          live,
        ) in
        cc) in
      (
        unfold reset_password in ground (arith, user_found),
        verify_session_token-shut o.tokens cfg s.id presented payload later good unseen closed run'
            late valid named proper,
      )

  -- If a user is found by a reset token that has not expired, then after the reset no refresh token whose
  -- session is one of the user's, open or not, is exchanged for a token.
  pub reset_password-refresh_session :
      (token new_password salt : String) (now : ℕ) (w : Accounts) (u : User)
      (refresh_token : String) (s : DeviceSession) (later : ℕ)
      → find (can_reset (o.hashing.sha256_hex token) now) w.users ≡ some u
      → find
          (λ (r : DeviceSession). str_eq r.refresh_token_hash (o.hashing.sha256_hex refresh_token))
          w.auth.sessions
        ≡ some s
      → s.user_id ≡ u.id
      → refresh_session o refresh_token later (reset_password o token new_password salt now w).1
        ≡ (err "Invalid or expired session", (reset_password o token new_password salt now w).1)
  reset_password-refresh_session token new_password salt now w u refresh_token s later user_found
        found owned =
      let w' = (reset_password o token new_password salt now w).1 in
      let q =
        λ (r : DeviceSession). str_eq r.refresh_token_hash (o.hashing.sha256_hex refresh_token) in
      let is_after : w'.auth ≡ revoke_all u.id now w.auth =
        unfold reset_password update_user in ground (arith, user_found) in
      let (s', found', same, gone) = revoke_all-found q u.id now w.auth s (λ r. refl) found owned in
      let (u', there) = reset-user o token new_password salt now w u user_found in
      refresh_session-revoked o refresh_token later w' s' u'
        (subst (λ x. find q x.sessions ≡ some s') (sym is_after) found')
        (subst (λ x. find_user x w'.users ≡ some u') (sym same) there) gone
