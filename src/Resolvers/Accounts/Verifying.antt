-- ===== src/Resolvers/Accounts/Verifying.antt =====
-- apps/api/src/resolvers/auth.ts: an account from its registration to its first login.
use ddrive.Prelude.{
  ℕ, ◌+◌, ◌≤◌, ◌≡◌, refl, ap, Bool, true, false, Option, none, some, String, str_eq, if◌then◌else◌,
  find, arith, str_eq_refl,
}
use ddrive.Database.Updates.{find-update_through}
use ddrive.Storage.Rows.{ok, err}
use ddrive.Middleware.Auth.{Text}
use ddrive.Resolvers.Accounts.{
  Accounts, User, EmailVerification, Outside, find_user, holds_text, update_user, hash_password,
  verify_password, is_legacy, verify_token_ttl_ms,
}
use ddrive.Resolvers.Accounts.Registration.{
  RegisterRequest, Drawn, new_user, new_verification, answers_to, register, mark_verified,
  verify_email, open_session, migrate, login, response,
}
use ddrive.Resolvers.Accounts.Registered.{register-Registered, Registered-found}

module _ (o : Outside) where
  verify_email-row :
      (token : String) (now : ℕ) (w : Accounts) (v : EmailVerification) (u : User)
      → find
          (λ (x : EmailVerification). str_eq x.token_hash (o.hashing.sha256_hex token))
          w.verifications
        ≡ some v
      → find_user v.user_id w.users ≡ some u
      → v.used_at ≡ none
      → now ≤ v.expires_at
      → verify_email o token now w ≡ (
        ok (
            response
              (o.sign_token (record { user_id = u.id; email = u.email; sid = none }) none now)
              none
              u),
        mark_verified o v now w,
      )
  unfolding verify_email
  verify_email-row token now w v u found there unused early =
      ground (arith, found, there, unused, early)

  verify_email-used :
      (token : String) (now at : ℕ) (w : Accounts) (v : EmailVerification) (u : User)
      → find
          (λ (x : EmailVerification). str_eq x.token_hash (o.hashing.sha256_hex token))
          w.verifications
        ≡ some v
      → find_user v.user_id w.users ≡ some u
      → v.used_at ≡ some at
      → verify_email o token now w ≡ (err "Verification link already used", w)
  unfolding verify_email
  verify_email-used token now at w v u found there used = ground (arith, found, there, used)

  -- What the verification leaves of a row of each table.
  mark_verified-user :
      (q : User → Bool) (v : EmailVerification) (now : ℕ) (w : Accounts) (u : User)
      → ((r : User) → q (record r { email_verified = true }) ≡ q r)
      → find q w.users ≡ some u
      → find q (mark_verified o v now w).users
        ≡ some (if str_eq u.id v.user_id then record u { email_verified = true } else u)
  unfolding mark_verified update_user
  mark_verified-user q v now w u keeps e =
      find-update_through (λ (r : User). str_eq r.id v.user_id) q
        (λ r. record r { email_verified = true }) w.users u keeps e

  mark_verified-row :
      (q : EmailVerification → Bool) (v : EmailVerification) (now : ℕ) (w : Accounts)
      → ((r : EmailVerification) → q (record r { used_at = some now }) ≡ q r)
      → find q w.verifications ≡ some v
      → find q (mark_verified o v now w).verifications ≡ some (record v { used_at = some now })
  unfolding mark_verified update_user
  mark_verified-row q v now w keeps e = ground (
    arith,
    str_eq_refl v.id,
    find-update_through (λ (r : EmailVerification). str_eq r.id v.id) q
        (λ r. record r { used_at = some now }) w.verifications v keeps e,
  )

  pub verify_password-hash_password :
      (salt password : String)
      → o.argon2_verify (o.argon2_hash salt password) password ≡ ok true
      → is_legacy (o.argon2_hash salt password) ≡ false
      → verify_password o password (hash_password o salt password) ≡ true
  unfolding verify_password hash_password
  verify_password-hash_password salt password e k = ground (arith, e, k)

  login-unverified :
      (name password : String) (device_name : Option Text) (drawn : Drawn) (now : ℕ) (w : Accounts)
      (u : User)
      → find (answers_to name) w.users ≡ some u
      → verify_password o password u.password_hash ≡ true
      → u.email_verified ≡ false
      → login o name password device_name drawn now w ≡ (err "Email not verified", w)
  unfolding login
  login-unverified name password device_name drawn now w u found right no_ =
      ground (arith, found, right, no_)

  pub login-plain :
      (name password : String) (drawn : Drawn) (now : ℕ) (w : Accounts) (u : User)
      → find (answers_to name) w.users ≡ some u
      → verify_password o password u.password_hash ≡ true
      → u.email_verified ≡ true
      → is_legacy u.password_hash ≡ false
      → login o name password none drawn now w ≡ (
        ok (
            response
              (o.sign_token (record { user_id = u.id; email = u.email; sid = none }) none now)
              none
              u),
        w,
      )
  unfolding login open_session migrate
  login-plain name password drawn now w u found right yes_ new =
      ground (arith, found, right, yes_, new)

  -- After a registration that has succeeded, where no account has the address as its user name, and if
  -- argon2 accepts the password for its own hash of it, which has not the old form: a login with the
  -- address and the password is refused, whatever the device, until the address is verified; the
  -- verification with the token that was mailed succeeds within 24 hours; then the login succeeds as the
  -- new user, and the token is refused.
  pub register-verify_email-login :
      (input : RegisterRequest) (drawn : Drawn) (now : ℕ) (w : Accounts) (email : String)
      (device_name : Option Text) (d : Drawn) (t0 t1 t2 t3 : ℕ)
      → (register o input drawn now w).0 ≡ ok email
      → find (λ (u : User). holds_text u.username input.email) w.users ≡ none
      → o.argon2_verify (o.argon2_hash drawn.salt input.password) input.password ≡ ok true
      → is_legacy (o.argon2_hash drawn.salt input.password) ≡ false
      → t1 ≤ now + verify_token_ttl_ms
      → let u = new_user o input drawn now in
        let token =
          λ (t : ℕ). o.sign_token (record { user_id = u.id; email = u.email; sid = none }) none t in
        let w1 = (register o input drawn now w).1 in
        let w2 = (verify_email o drawn.raw_token t1 w1).1 in
        (login o input.email input.password device_name d t0 w1 ≡ (err "Email not verified", w1))
        × ((verify_email o drawn.raw_token t1 w1).0 ≡ ok (response (token t1) none u))
        × (login o input.email input.password none d t2 w2 ≡ (ok (response (token t2) none u), w2))
        × (verify_email o drawn.raw_token t3 w2 ≡ (err "Verification link already used", w2))
  register-verify_email-login input drawn now w email device_name d t0 t1 t2 t3 done other law form
        early =
      let u = new_user o input drawn now in
      let v = new_verification o drawn.user_id drawn.raw_token drawn.row_id now in
      let w1 = (register o input drawn now w).1 in
      let r = register-Registered o input drawn now w email done in
      let (answering, there, row) = Registered-found o input drawn now w w1 r other in
      let right = verify_password-hash_password drawn.salt input.password law form in
      let form' : is_legacy u.password_hash ≡ false = unfold hash_password in form in
      let verified = verify_email-row drawn.raw_token t1 w1 v u row there refl early in
      let w2 = mark_verified o v t1 w1 in
      let u2 : User = record u { email_verified = true } in
      let answering2 : find (answers_to input.email) w2.users ≡ some u2 = ground (
        arith,
        mark_verified-user (answers_to input.email) v t1 w1 u (λ x. refl) answering,
        str_eq_refl drawn.user_id,
      ) in
      let there2 : find_user drawn.user_id w2.users ≡ some u2 = ground (
        arith,
        mark_verified-user (λ x. str_eq x.id drawn.user_id) v t1 w1 u (λ x. refl) there,
        str_eq_refl drawn.user_id,
      ) in
      let row2 =
        mark_verified-row (λ x. str_eq x.token_hash (o.hashing.sha256_hex drawn.raw_token)) v t1 w1
          (λ x. refl) row in
      (
        login-unverified input.email input.password device_name d t0 w1 u answering right refl,
        ap (λ x. x.0) verified,
        rw verified (login-plain input.email input.password d t2 w2 u2 answering2 right refl form'),
        rw verified (
            verify_email-used drawn.raw_token t3 t1 w2 (record v { used_at = some t1 }) u2 row2
              there2 refl),
      )
