-- ===== src/Resolvers/Accounts/Passwords.antt =====
-- apps/api/src/resolvers/auth.ts: the change and the reset of a password.
use ddrive.Prelude.{
  ℕ, ◌+◌, Bool, true, false, not, ◌&&◌, List, [], ◌∷◌, ◌++◌, none, some, String, map, ltb, str_eq,
  if◌then◌else◌, filter, find,
}
use ddrive.Prelude.Texts.{codes}
use ddrive.Storage.Rows.{Result, ok, err}
use ddrive.Middleware.Auth.{DeviceSession, AuthState, is_null, invalidate_session_cache}
use ddrive.Resolvers.Accounts.{
  Accounts, User, Outside, Mail, reset_mail, find_user, user_by_email, holds_text, update_user,
  update_session, hash_password, verify_password, reset_token_ttl_ms,
}
use ddrive.Resolvers.Accounts.Registration.{send}

-- The update of a session and the cached answer of the middleware, for each of a list.
unfoldable pub revoke_each : List String → ℕ → AuthState → AuthState
unfolding update_session
revoke_each [] now st = st
revoke_each (sid ∷ sids) now st =
    revoke_each sids now (
      invalidate_session_cache sid
        (update_session sid (λ s. record s { revoked_at = some now }) st))

abbrev pub live_session : String → DeviceSession → Bool
live_session user_id s = str_eq s.user_id user_id && is_null s.revoked_at

unfoldable pub revoke_all : String → ℕ → AuthState → AuthState
unfolding revoke_each
revoke_all user_id now st =
    revoke_each (map (λ (s : DeviceSession). s.id) (filter (live_session user_id) st.sessions)) now
      st

-- `passwordResetToken: hash, passwordResetExpires: { gt: now }`.
abbrev pub can_reset : String → ℕ → User → Bool
can_reset hash now u =
    holds_text u.password_reset_token hash
    && elim u.password_reset_expires [ none ↦ false | some t ↦ ltb now t ]

module _ (o : Outside) where
  unfoldable pub change_password :
      String → String → String → String → Accounts → Result Bool × Accounts
  unfolding update_user
  change_password user_id current_password new_password salt w = elim (find_user user_id w.users) [
    | none ↦ (err "User not found", w)
    | some u ↦
        if not (verify_password o current_password u.password_hash)
        then (err "Current password is incorrect", w)
        else (
          ok true,
          update_user user_id (λ r. record r { password_hash = hash_password o salt new_password })
              w,
        )
  ]

  abbrev reset_of : User → String → Mail
  reset_of u raw_token = record {
    kind = reset_mail;
    to = u.email;
    username = none;
    link = o.frontend_url ++ codes "/reset-password?token=" ++ codes raw_token;
  }

  unfoldable pub request_password_reset : String → String → ℕ → Accounts → Result Bool × Accounts
  unfolding update_user send
  request_password_reset email raw_token now w = elim (user_by_email email w.users) [
    | none ↦ (ok true, w)
    | some u ↦
        let (sent, w') = send o (reset_of u raw_token) (
          update_user u.id
            (λ r. record r {
              password_reset_token = some (o.hashing.sha256_hex raw_token);
              password_reset_expires = some (now + reset_token_ttl_ms);
            })
            w) in
        elim sent [ err e ↦ (err e, w') | ok done ↦ (ok true, w') ]
  ]

  unfoldable pub reset_password : String → String → String → ℕ → Accounts → Result Bool × Accounts
  unfolding update_user revoke_all
  reset_password token new_password salt now w =
      elim (find (can_reset (o.hashing.sha256_hex token) now) w.users) [
        | none ↦ (err "Invalid or expired reset token", w)
        | some u ↦
            let w' =
              update_user u.id
                (λ r. record r {
                  password_hash = hash_password o salt new_password;
                  password_reset_token = none;
                  password_reset_expires = none;
                })
                w in
            (ok true, record w' { auth = revoke_all u.id now w'.auth })
      ]
