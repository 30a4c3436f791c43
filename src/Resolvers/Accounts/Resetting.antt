-- ===== src/Resolvers/Accounts/Resetting.antt =====
-- apps/api/src/resolvers/auth.ts: a password from the request of its reset to the next login.
use ddrive.Prelude.{
  ℕ, ◌<◌, ◌+◌, ◌≡◌, refl, ap, ◌∙◌, Bool, true, false, List, [], ◌∷◌, none, some, String, str_eq,
  find, arith, str_eq_refl, All,
}
use ddrive.Prelude.Tables.{update_many}
use ddrive.Database.Keys.{UniqueKeys, unique-found}
use ddrive.Database.Updates.{
  find-update_through, find-updated_only, find-none_updated, update_many_twice,
}
use ddrive.Storage.Rows.{ok, err}
use ddrive.Resolvers.Accounts.{
  Accounts, User, Outside, user_by_email, holds_text, update_user, hash_password, is_legacy,
  reset_token_ttl_ms,
}
use ddrive.Resolvers.Accounts.Registration.{Drawn, response, answers_to, send, login}
use ddrive.Resolvers.Accounts.Passwords.{can_reset, request_password_reset, reset_password}
use ddrive.Resolvers.Accounts.Verifying.{login-plain, verify_password-hash_password}

module _ (o : Outside) where
  abbrev with_token : String → ℕ → User → User
  with_token raw_token now r = record r {
    password_reset_token = some (o.hashing.sha256_hex raw_token);
    password_reset_expires = some (now + reset_token_ttl_ms);
  }

  abbrev with_password : String → String → User → User
  with_password salt new_password r = record r {
    password_hash = hash_password o salt new_password;
    password_reset_token = none;
    password_reset_expires = none;
  }

  abbrev is_user : User → User → Bool
  is_user u r = str_eq r.id u.id

  request_password_reset-users :
      (email raw_token : String) (now : ℕ) (w : Accounts) (u : User)
      → user_by_email email w.users ≡ some u
      → (request_password_reset o email raw_token now w).1.users
        ≡ update_many (is_user u) (with_token raw_token now) w.users
  unfolding request_password_reset update_user send
  request_password_reset-users email raw_token now w u e = ground (arith, e)

  reset_password-users :
      (token new_password salt : String) (now : ℕ) (w : Accounts) (u : User)
      → find (can_reset (o.hashing.sha256_hex token) now) w.users ≡ some u
      → ((reset_password o token new_password salt now w).0 ≡ ok true)
        × ((reset_password o token new_password salt now w).1.users
            ≡ update_many (is_user u) (with_password salt new_password) w.users)
  unfolding reset_password update_user
  reset_password-users token new_password salt now w u e = (ground (arith, e), ground (arith, e))

  reset_password-unknown :
      (token new_password salt : String) (now : ℕ) (w : Accounts)
      → find (can_reset (o.hashing.sha256_hex token) now) w.users ≡ none
      → reset_password o token new_password salt now w ≡ (err "Invalid or expired reset token", w)
  unfolding reset_password
  reset_password-unknown token new_password salt now w e = ground (arith, e)

  -- Others do not hold the token.
  no_other :
      (hash : String) (now : ℕ) (u : User) (rows : List User)
      → All (λ r. is_user u r ≡ false → holds_text r.password_reset_token hash ≡ false) rows
      → All (λ r. is_user u r ≡ false → can_reset hash now r ≡ false) rows
  no_other hash now u [] h = tt
  no_other hash now u (r ∷ rows) (k, h) = (λ t. ground (arith, k t), no_other hash now u rows h)

  -- A user is found by an address, which is verified, and answers to it at a login; no other account holds
  -- the hash of the token that is drawn, and identifiers of users are unique. Then, once the request of a
  -- reset has been made, the reset with the token that was mailed succeeds within the hour, and, if argon2
  -- accepts the new password for its own hash of it, which has not the old form, a login with the address and
  -- the new password succeeds; and the token is refused from then on, whatever the time.
  pub request_password_reset-reset_password :
      (email raw_token new_password salt : String) (now t1 t2 t3 : ℕ) (w : Accounts) (u : User)
      (drawn : Drawn) (another another_salt : String)
      → user_by_email email w.users ≡ some u
      → find (answers_to email) w.users ≡ some u
      → u.email_verified ≡ true
      → UniqueKeys (λ (r : User). r.id) w.users
      → All
          (λ r.
            str_eq r.id u.id ≡ false
            → holds_text r.password_reset_token (o.hashing.sha256_hex raw_token) ≡ false)
          w.users
      → t1 < now + reset_token_ttl_ms
      → o.argon2_verify (o.argon2_hash salt new_password) new_password ≡ ok true
      → is_legacy (o.argon2_hash salt new_password) ≡ false
      → let w1 = (request_password_reset o email raw_token now w).1 in
        let w2 = (reset_password o raw_token new_password salt t1 w1).1 in
        ((reset_password o raw_token new_password salt t1 w1).0 ≡ ok true)
        × (login o email new_password none drawn t2 w2 ≡ (
          ok (
              response
                (o.sign_token (record { user_id = u.id; email = u.email; sid = none }) none t2)
                none
                u),
          w2,
        ))
        × (reset_password o raw_token another another_salt t3 w2
            ≡ (err "Invalid or expired reset token", w2))
  request_password_reset-reset_password email raw_token new_password salt now t1 t2 t3 w u drawn
        another another_salt by_email answering verified unique others early law form =
      let hash = o.hashing.sha256_hex raw_token in
      let w1 = (request_password_reset o email raw_token now w).1 in
      let w2 = (reset_password o raw_token new_password salt t1 w1).1 in
      let users1 = request_password_reset-users email raw_token now w u by_email in
      let only =
        unique-found (λ (r : User). r.id) (λ r. str_eq r.email email) w.users u unique by_email in
      let g = with_token raw_token now in
      let f = with_password salt new_password in
      let found1 : find (can_reset hash t1) w1.users ≡ some (g u) =
        ap (find (can_reset hash t1)) users1
        ∙ find-updated_only (is_user u) (can_reset hash t1) (λ r. str_eq r.email email) g w.users u
            (no_other hash t1 u w.users others) only (ground (arith, early, str_eq_refl hash))
            (str_eq_refl u.id) by_email in
      let (done, users) = reset_password-users raw_token new_password salt t1 w1 (g u) found1 in
      let users2 : w2.users ≡ update_many (is_user u) (λ r. f (g r)) w.users =
        users
        ∙ ap (update_many (is_user u) f) users1
        ∙ update_many_twice (is_user u) f g w.users (λ r. refl) in
      let answering2 : find (answers_to email) w2.users ≡ some (f (g u)) = ground (
        arith,
        users2,
        str_eq_refl u.id,
        find-update_through (is_user u) (answers_to email) (λ r. f (g r)) w.users u (λ r. refl)
            answering,
      ) in
      let none2 : find (can_reset hash t3) w2.users ≡ none =
        ap (find (can_reset hash t3)) users2
        ∙ find-none_updated (is_user u) (can_reset hash t3) (λ r. f (g r)) w.users
            (no_other hash t3 u w.users others) (λ r. refl) in
      (
        done,
        login-plain o email new_password drawn t2 w2 (f (g u)) answering2
            (verify_password-hash_password o salt new_password law form) verified
            (unfold hash_password in form),
        reset_password-unknown raw_token another another_salt t3 w2 none2,
      )
