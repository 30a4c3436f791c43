-- ===== src/Resolvers/Accounts/Migrating.antt =====
-- apps/api/src/resolvers/auth.ts: what a login does to a stored hash of the old form.
use ddrive.Prelude.{
  ℕ, ◌≡◌, refl, sym, inl, inr, true, false, Option, none, some, String, str_eq, find, Option-cases,
  Bool-cases, arith, str_eq_refl,
}
use ddrive.Database.Updates.{find-update_through}
use ddrive.Storage.Rows.{ok, Result-cases}
use ddrive.Middleware.Auth.{Text}
use ddrive.Resolvers.Accounts.{
  Accounts, User, Outside, trim, update_user, hash_password, verify_password, is_legacy,
}
use ddrive.Resolvers.Accounts.Sessions.{create_device_session}
use ddrive.Resolvers.Accounts.Registration.{
  Drawn, LoginResponse, response, answers_to, open_session, migrate, login,
}
use ddrive.Resolvers.Accounts.Verifying.{login-plain, verify_password-hash_password}

module _ (o : Outside) where
  create_device_session-users :
      (user_id email : String) (name : Text) (sid refresh_token : String) (now : ℕ) (w : Accounts)
      → (create_device_session o user_id email name sid refresh_token now w).1.users ≡ w.users
  unfolding create_device_session
  create_device_session-users user_id email name sid refresh_token now w = ground arith

  open_session-users :
      (u : User) (device_name : Option Text) (drawn : Drawn) (now : ℕ) (w : Accounts)
      → (open_session o u device_name drawn now w).1.users ≡ w.users
  unfolding open_session
  open_session-users u none drawn now w = refl
  open_session-users u (some name) drawn now w = ground (
    arith,
    create_device_session-users u.id u.email (trim name) drawn.row_id drawn.raw_token now w,
  )

  open_session-user :
      (u : User) (device_name : Option Text) (drawn : Drawn) (now : ℕ) (w : Accounts)
      (r : LoginResponse)
      → (open_session o u device_name drawn now w).0 ≡ ok r
      → r.user_id ≡ u.id
  unfolding open_session
  open_session-user u none drawn now w r e = ground (arith, e)
  open_session-user u (some name) drawn now w r e =
      elim (Result-cases
        (create_device_session o u.id u.email (trim name) drawn.row_id drawn.raw_token now w).0) [
          | inl (pair, t) ↦ ground (arith, e, t)
          | inr (x, t) ↦ ground (arith, e, t)
        ]

  record LoggedIn (name password : String) (w : Accounts) (r : LoginResponse) (u : User)
      : Type 0 where
    found : find (answers_to name) w.users ≡ some u
    user_id : r.user_id ≡ u.id
    right : verify_password o password u.password_hash ≡ true
    email_verified : u.email_verified ≡ true
    current : is_legacy u.password_hash ≡ false

  migrate-user :
      (name salt password : String) (u : User) (w : Accounts)
      → find (answers_to name) w.users ≡ some u
      → verify_password o password u.password_hash ≡ true
      → u.email_verified ≡ true
      → o.argon2_verify (o.argon2_hash salt password) password ≡ ok true
      → is_legacy (o.argon2_hash salt password) ≡ false
      → (u' : User) × (find (answers_to name) (migrate o salt password u w).users ≡ some u')
        × (u'.id ≡ u.id)
        × (verify_password o password u'.password_hash ≡ true)
        × (u'.email_verified ≡ true)
        × (is_legacy u'.password_hash ≡ false)
  unfolding migrate update_user
  migrate-user name salt password u w found right verified law form =
      let new = hash_password o salt password in
      let f = λ (r : User). record r { password_hash = new } in
      elim (Bool-cases (is_legacy u.password_hash)) [
        | inr t ↦ (u, ground (arith, t, found), refl, right, verified, t)
        | inl t ↦ (
          f u,
          ground (
            arith,
            t,
            find-update_through (λ (r : User). str_eq r.id u.id) (answers_to name) f w.users u
                (λ r. refl) found,
            str_eq_refl u.id,
          ),
          refl,
          verify_password-hash_password o salt password law form,
          verified,
          (unfold hash_password in form),
        )
      ]

  login-LoggedIn :
      (name password : String) (device_name : Option Text) (drawn : Drawn) (now : ℕ) (w : Accounts)
      (r : LoginResponse)
      → (login o name password device_name drawn now w).0 ≡ ok r
      → o.argon2_verify (o.argon2_hash drawn.salt password) password ≡ ok true
      → is_legacy (o.argon2_hash drawn.salt password) ≡ false
      → (u : User) × LoggedIn name password (login o name password device_name drawn now w).1 r u
  unfolding login
  login-LoggedIn name password device_name drawn now w r e law form =
      elim (Option-cases (find (answers_to name) w.users)) [
        | inl t ↦ absurd (ground (arith, e, t))
        | inr (u, t) ↦ elim (Bool-cases (verify_password o password u.password_hash)) [
          | inr k ↦ absurd (ground (arith, e, t, k))
          | inl k ↦ elim (Bool-cases u.email_verified) [
            | inr n ↦ absurd (ground (arith, e, t, k, n))
            | inl n ↦
                let w1 = migrate o drawn.salt password u w in
                let (u', found, same, right, verified, current) =
                  migrate-user name drawn.salt password u w t k n law form in
                (
                  u',
                  record {
                    found =
                        ground
                          (arith, t, k, n, open_session-users u device_name drawn now w1, found);
                    user_id =
                        ground
                          (arith, open_session-user u device_name drawn now w1 r, e, t, k, n, same);
                    right = right;
                    email_verified = verified;
                    current = current;
                  },
                )
          ]
        ]
      ]

  -- If argon2 accepts the password for its own hash of it, which has not the old form, then after a login
  -- that has succeeded, with a device or without one, the stored hash of the account has not the old form, and a login with the
  -- same name and password, without a device, succeeds as the same user and changes nothing.
  pub login-login :
      (name password : String) (device_name : Option Text) (drawn later_drawn : Drawn)
      (now later : ℕ) (w : Accounts) (r : LoginResponse)
      → (login o name password device_name drawn now w).0 ≡ ok r
      → o.argon2_verify (o.argon2_hash drawn.salt password) password ≡ ok true
      → is_legacy (o.argon2_hash drawn.salt password) ≡ false
      → let w' = (login o name password device_name drawn now w).1 in
        (u : User) × (find (answers_to name) w'.users ≡ some u)
        × (u.id ≡ r.user_id)
        × (is_legacy u.password_hash ≡ false)
        × (login o name password none later_drawn later w' ≡ (
          ok (
              response
                (o.sign_token (record { user_id = u.id; email = u.email; sid = none }) none later)
                none
                u),
          w',
        ))
  login-login name password device_name drawn later_drawn now later w r e law form =
      let (u, l) = login-LoggedIn name password device_name drawn now w r e law form in
      (
        u,
        l.found,
        sym l.user_id,
        l.current,
        login-plain o name password later_drawn later
            (login o name password device_name drawn now w).1 u l.found l.right l.email_verified
            l.current,
      )
