-- ===== src/Resolvers/Accounts/Sessions.antt =====
-- apps/api/src/resolvers/auth.ts: device sessions.
use ddrive.Prelude.{
  ℕ, ◌+◌, ◌*◌, Bool, true, not, ◌&&◌, ◌||◌, List, none, some, String, ltb, str_eq, if◌then◌else◌,
  filter, find,
}
use mathlib.Core.List.{reverse}
use ddrive.Prelude.Sort.{sort_by}
use ddrive.Storage.Rows.{Result, ok, err}
use ddrive.Middleware.Auth.{Text, DeviceSession, is_null, invalidate_session_cache}
use ddrive.Resolvers.Accounts.{
  Accounts, Outside, add_row, find_user, update_session, session_token, session_refresh_ttl_days,
}

module _ (o : Outside) where
  -- The token and the refresh token.
  unfoldable pub create_device_session :
      String → String → Text → String → String → ℕ → Accounts → Result (Text × String) × Accounts
  create_device_session user_id email device_name sid refresh_token now w =
      let hash = o.hashing.sha256_hex refresh_token in
      let row : DeviceSession = record {
        id = sid;
        user_id = user_id;
        device_name = some device_name;
        refresh_token_hash = hash;
        created_at = now;
        last_used_at = now;
        expires_at = now + session_refresh_ttl_days * 86400000;
        revoked_at = none;
      } in
      elim (add_row (λ (s : DeviceSession). str_eq s.refresh_token_hash hash || str_eq s.id sid) row
        w.auth.sessions) [
          | err e ↦ (err e, w)
          | ok rows ↦ (
            ok (session_token o user_id email sid now, refresh_token),
            record w { auth = record w.auth { sessions = rows } },
          )
        ]

  unfoldable pub refresh_session : String → ℕ → Accounts → Result Text × Accounts
  unfolding update_session
  refresh_session refresh_token now w =
      let hash = o.hashing.sha256_hex refresh_token in
      let refused : Result Text × Accounts = (err "Invalid or expired session", w) in
      elim (find (λ (s : DeviceSession). str_eq s.refresh_token_hash hash) w.auth.sessions) [
        | none ↦ refused
        | some s ↦ elim (find_user s.user_id w.users) [
          | none ↦ (err "Inconsistent query result", w)
          | some u ↦ if not (is_null s.revoked_at) || ltb s.expires_at now then refused else (
            ok (session_token o s.user_id u.email s.id now),
            record w { auth = update_session s.id (λ r. record r { last_used_at = now }) w.auth },
          )
        ]
      ]

unfoldable pub list_sessions : String → ℕ → Accounts → List DeviceSession
list_sessions user_id now w = reverse (
    sort_by (λ (s : DeviceSession). s.last_used_at)
      (filter
        (λ (s : DeviceSession).
          str_eq s.user_id user_id && (is_null s.revoked_at && ltb now s.expires_at))
        w.auth.sessions))

abbrev pub owned_session : String → String → DeviceSession → Bool
owned_session user_id sid s = str_eq s.id sid && str_eq s.user_id user_id

unfoldable pub revoke_session : String → String → ℕ → Accounts → Result Bool × Accounts
unfolding update_session
revoke_session user_id sid now w = elim (find (owned_session user_id sid) w.auth.sessions) [
  | none ↦ (err "Session not found", w)
  | some s ↦ (
    ok true,
    record w {
      auth =
          invalidate_session_cache sid
            (update_session sid (λ r. record r { revoked_at = some now }) w.auth);
    },
  )
]
