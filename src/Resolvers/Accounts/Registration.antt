-- ===== src/Resolvers/Accounts/Registration.antt =====
-- apps/api/src/resolvers/auth.ts: registration, the verification of an address, and login.
use ddrive.Prelude.{
  ℕ, ◌+◌, Bool, true, false, not, ◌||◌, [], ◌∷◌, ◌++◌, Option, none, some, String, ltb, ◌==◌,
  str_eq, if◌then◌else◌, find,
}
use ddrive.Prelude.Tables.{update_many}
use ddrive.Prelude.Texts.{codes}
use ddrive.Storage.Rows.{Result, ok, err}
use ddrive.Database.Actions.{Done}
use ddrive.Middleware.Auth.{Text, is_null}
use ddrive.Resolvers.Accounts.{
  Accounts, User, EmailVerification, Outside, Mail, verification_mail, is_empty_text, trim, add_row,
  find_user, user_by_email, holds_text, update_user, hash_password, verify_password, is_legacy,
  verify_token_ttl_ms,
}
use ddrive.Resolvers.Accounts.Sessions.{create_device_session}

-- `frontendUrl.replace(/\/$/, "")`.
abbrev pub without_slash : Text → Text
without_slash [] = []
without_slash (c ∷ []) = if c == b'/' then [] else c ∷ []
without_slash (c ∷ d ∷ cs) = c ∷ without_slash (d ∷ cs)

-- `await send…Email(…)`.
unfoldable pub send : Outside → Mail → Accounts → Result Done × Accounts
send o mail w = (o.send_mail mail, record w { mails = w.mails ++ mail ∷ [] })

pub record RegisterRequest : Type 0 where
  pub email : String
  pub username : String
  pub password : String

-- What the calls draw: the salt of the hash, the token that is mailed, and the identifiers of new rows.
pub record Drawn : Type 0 where
  pub salt : String
  pub raw_token : String
  pub user_id : String
  pub row_id : String

pub record LoginResponse : Type 0 where
  pub token : Text
  pub refresh_token : Option String
  pub user_id : String
  pub email : String
  pub username : Option String

abbrev pub response : Text → Option String → User → LoginResponse
response token refresh_token u = record {
  token = token;
  refresh_token = refresh_token;
  user_id = u.id;
  email = u.email;
  username = u.username;
}

abbrev pub answers_to : String → User → Bool
answers_to name u = str_eq u.email name || holds_text u.username name

module _ (o : Outside) where
  abbrev verification_of : User → String → Text → Mail
  verification_of u raw_token link = record {
    kind = verification_mail;
    to = u.email;
    username = none;
    link = link;
  }

  abbrev pub new_verification : String → String → String → ℕ → EmailVerification
  new_verification user_id raw_token row_id now = record {
    id = row_id;
    user_id = user_id;
    token_hash = o.hashing.sha256_hex raw_token;
    expires_at = now + verify_token_ttl_ms;
    used_at = none;
    created_at = now;
  }

  -- A row for a new token, and the mail with its link.
  unfoldable pub issue_verification : User → String → String → ℕ → Accounts → Result Done × Accounts
  unfolding send
  issue_verification u raw_token row_id now w =
      let hash = o.hashing.sha256_hex raw_token in
      let row = new_verification u.id raw_token row_id now in
      let link = without_slash o.frontend_url ++ codes "/verify-email?token=" ++ codes raw_token in
      elim (add_row (λ (v : EmailVerification). str_eq v.token_hash hash || str_eq v.id row_id) row
        w.verifications) [
          | err e ↦ (err e, w)
          | ok rows ↦ send o (verification_of u raw_token link) (record w { verifications = rows })
        ]

  abbrev pub new_user : RegisterRequest → Drawn → ℕ → User
  new_user input drawn now = record {
    id = drawn.user_id;
    email = input.email;
    username = some input.username;
    password_hash = hash_password o drawn.salt input.password;
    password_reset_token = none;
    password_reset_expires = none;
    email_verified = false;
    created_at = now;
  }

  -- The value is the address of `requiresEmailVerification`.
  unfoldable pub register : RegisterRequest → Drawn → ℕ → Accounts → Result String × Accounts
  unfolding issue_verification
  register input drawn now w =
      let user = new_user input drawn now in
      elim (user_by_email input.email w.users) [
        | some u ↦ (err "Email already registered", w)
        | none ↦ elim (find (λ (u : User). holds_text u.username input.username) w.users) [
          | some u ↦ (err "Username already taken", w)
          | none ↦ elim (add_row (λ (u : User). str_eq u.id drawn.user_id) user w.users) [
            | err e ↦ (err e, w)
            | ok users ↦
                let (sent, w') =
                  issue_verification user drawn.raw_token drawn.row_id now
                    (record w { users = users }) in
                elim sent [
                  | err e ↦ (err e, w')
                  | ok done ↦ (
                    ok user.email,
                    record w' { registered = w'.registered ++ (user.id, user.email) ∷ [] },
                  )
                ]
          ]
        ]
      ]

  -- The transaction of `verifyEmail`.
  unfoldable pub mark_verified : EmailVerification → ℕ → Accounts → Accounts
  unfolding update_user
  mark_verified row now w =
      let w' = record w {
        verifications =
            update_many (λ (v : EmailVerification). str_eq v.id row.id)
              (λ v. record v { used_at = some now }) w.verifications;
      } in
      update_user row.user_id (λ u. record u { email_verified = true }) w'

  unfoldable pub verify_email : String → ℕ → Accounts → Result LoginResponse × Accounts
  unfolding mark_verified
  verify_email token now w =
      let hash = o.hashing.sha256_hex token in
      elim (find (λ (v : EmailVerification). str_eq v.token_hash hash) w.verifications) [
        | none ↦ (err "Invalid verification token", w)
        | some row ↦ elim (find_user row.user_id w.users) [
          | none ↦ (err "Inconsistent query result", w)
          | some u ↦
              if not (is_null row.used_at)
              then (err "Verification link already used", w)
              else if ltb row.expires_at now
              then (err "Verification link expired", w)
              else (
                ok (
                    response
                      (o.sign_token (record { user_id = u.id; email = u.email; sid = none }) none
                        now)
                      none u),
                mark_verified row now w,
              )
        ]
      ]

  unfoldable pub resend_verification : String → Drawn → ℕ → Accounts → Result Bool × Accounts
  unfolding issue_verification
  resend_verification email drawn now w = elim (user_by_email email w.users) [
    | none ↦ (ok true, w)
    | some u ↦
        let (sent, w') = issue_verification u drawn.raw_token drawn.row_id now w in
        if u.email_verified
        then (ok true, w)
        else elim sent [ err e ↦ (err e, w') | ok done ↦ (ok true, w') ]
  ]

  -- The stored hash, made anew where it is of the old form.
  unfoldable pub migrate : String → String → User → Accounts → Accounts
  unfolding update_user
  migrate salt password u w =
      if is_legacy u.password_hash
      then update_user u.id (λ r. record r { password_hash = hash_password o salt password }) w
      else w

  -- The token, with a device session where a device is named; `raw_token` is then the refresh token.
  unfoldable pub open_session :
      User → Option Text → Drawn → ℕ → Accounts → Result LoginResponse × Accounts
  open_session u device_name drawn now w =
      let plain : Result LoginResponse × Accounts = (
        ok (
            response
              (o.sign_token (record { user_id = u.id; email = u.email; sid = none }) none now) none
              u),
        w,
      ) in
      elim device_name [
        | none ↦ plain
        | some name ↦
            let (made, w') =
              create_device_session o u.id u.email (trim name) drawn.row_id drawn.raw_token now w in
            if is_empty_text (trim name) then plain else elim made [
              | err e ↦ (err e, w')
              | ok pair ↦ (ok (response pair.0 (some pair.1) u), w')
            ]
      ]

  unfoldable pub login :
      String → String → Option Text → Drawn → ℕ → Accounts → Result LoginResponse × Accounts
  unfolding open_session migrate
  login email_or_username password device_name drawn now w =
      elim (find (answers_to email_or_username) w.users) [
        | none ↦ (err "Invalid credentials", w)
        | some u ↦
            if not (verify_password o password u.password_hash)
            then (err "Invalid credentials", w)
            else if not u.email_verified
            then (err "Email not verified", w)
            else open_session u device_name drawn now (migrate drawn.salt password u w)
      ]
