-- ===== src/Tests/Accounts.antt =====
-- apps/api/src/resolvers/auth.ts on an account that is registered, logs in, is reset and deleted. Hashes
-- and tokens are texts that show what they are made of.
use ddrive.Prelude.{
  ℕ, ◌≡◌, ◌≢◌, refl, true, false, [], ◌∷◌, ◌++◌, List, none, some, Option, String, arith, find,
  eq_iff,
}
use ddrive.Prelude.Tables.{lookup}
use ddrive.Prelude.Texts.{codes}
use ddrive.Storage.Rows.{Result, ok, err}
use ddrive.Database.Rows.{empty_db}
use ddrive.Middleware.Auth.{
  Text, AuthPayload, DeviceSession, ApiKey, AuthState, ResolvedAuth, ServerConfig, key_payload,
  api_key_prefix, resolve_request_auth, verify_session_token,
}
use ddrive.Middleware.Auth.Keys.{IsUnusable, key_answer}
use ddrive.Middleware.Auth.Requests.{
  Flight, session_flight, settle_flight, Run, here, request as asks, settles,
}
use ddrive.Middleware.Auth.Caching.{IsClosed, Unseen, Bounded}
use ddrive.Resolvers.Accounts.{
  Accounts, User, AccountDeletion, Outside, verify_password, is_legacy, update_user, add_row, trim,
  trim_start,
}
use ddrive.Resolvers.Accounts.Sessions.{create_device_session}
use ddrive.Resolvers.Accounts.Keys.{create_api_key, add_api_key, revoke_api_key}
use ddrive.Resolvers.Accounts.Registration.{
  RegisterRequest, Drawn, LoginResponse, response, new_user, register, issue_verification, send,
  verify_email, answers_to, login, migrate, open_session,
}
use ddrive.Resolvers.Accounts.Passwords.{request_password_reset, reset_password}
use ddrive.Resolvers.Accounts.Deletion.{confirm_account_deletion}
use ddrive.Resolvers.Accounts.Revoking.{reset_password-verify_session_token}
use ddrive.Resolvers.Accounts.Verifying.{register-verify_email-login}
use ddrive.Resolvers.Accounts.Migrating.{login-login}
use ddrive.Resolvers.Accounts.Deleted.{Gone, confirm_account_deletion-Gone}
use ddrive.Resolvers.Accounts.Resetting.{request_password_reset-reset_password}
use ddrive.Resolvers.Accounts.Keyed.{create_api_key-revoke_api_key}

abbrev payload : AuthPayload
payload = record { user_id = "u1"; email = "a@x"; sid = some "s1" }

abbrev hash_part : Text → String
hash_part [] = "empty"
hash_part (c ∷ cs) = "hash"

-- Passwords are right for all hashes but the empty one; SHA-256 is taken for the identity.
abbrev outside : Outside
outside = record {
  hashing = record { sha256_hex = λ s. s; from_hex = λ s. codes s };
  tokens = record { verify_token = λ token now. ok payload; hash_auth_part = hash_part };
  argon2_hash = λ salt password. "argon2";
  argon2_verify = λ hash password. ok true;
  sign_token = λ p ttl now. codes p.user_id;
  send_mail = λ mail. ok tt;
  parse_date = λ text. none;
  frontend_url = codes "https://x/";
}

abbrev config : ServerConfig
config = record { is_backend_only = false; api_key = []; system_user_id = "system" }

abbrev user : String → User
user hash = record {
  id = "u1";
  email = "a@x";
  username = some "a";
  password_hash = hash;
  password_reset_token = some "reset";
  password_reset_expires = some 1000;
  email_verified = true;
  created_at = 0;
}

abbrev session : DeviceSession
session = record {
  id = "s1";
  user_id = "u1";
  device_name = none;
  refresh_token_hash = "refresh";
  created_at = 0;
  last_used_at = 0;
  expires_at = 900000;
  revoked_at = none;
}

abbrev deletion : AccountDeletion
deletion = record {
  id = "d1";
  user_id = "u1";
  token_hash = "delete";
  expires_at = 1000;
  used_at = none;
  created_at = 0;
}

abbrev auth : List DeviceSession → AuthState
auth sessions = record {
  sessions = sessions;
  api_keys = [];
  session_cache = [];
  api_key_cache = [];
}

abbrev accounts : List User → Accounts
accounts users = record {
  users = users;
  verifications = [];
  account_deletions = deletion ∷ [];
  auth = auth (session ∷ []);
  db = empty_db;
  mails = [];
  registered = [];
}

abbrev one_user : Accounts
one_user = accounts (user "argon2" ∷ [])

s1_named : ◌≢◌ {A = String} "s1" ""
s1_named e = ground (arith, e, eq_iff "s1" "")

abbrev after_reset : Accounts
after_reset = (reset_password outside "reset" "new" "salt" 10 one_user).1

-- A look-up of another session is under way at the reset, and is written to the cache after it.
abbrev other_flight : Flight
other_flight = session_flight "s2" 9 true

abbrev settled_reset : AuthState
settled_reset = settle_flight other_flight after_reset.auth

after_reset-Run :
    Run outside.tokens config
      (λ rows keys. IsClosed 10 "s1" rows)
      10
      after_reset.auth
      (other_flight ∷ [])
      10
      settled_reset
      []
after_reset-Run = settles other_flight [] [] here

other_flight-Unseen : Unseen "s1" other_flight
unfolding Unseen
other_flight-Unseen e = absurd (ground (arith, e, eq_iff "s2" "s1"))

reset_password-verify_session_token_example :
    ((reset_password outside "reset" "new" "salt" 10 one_user).0 ≡ ok true)
    × ((verify_session_token outside.tokens (codes "x") 11 settled_reset).0
        ≡ err "Session revoked or expired")
unfolding find
reset_password-verify_session_token_example =
    reset_password-verify_session_token outside config "reset" "new" "salt" 10 one_user
      (user "argon2") session (other_flight ∷ []) (codes "x") payload 11 refl refl refl refl
      (other_flight-Unseen, tt) after_reset-Run (omega arith) refl refl s1_named

abbrev request : RegisterRequest
request = record { email = "b@x"; username = "b"; password = "secret" }

abbrev drawn : Drawn
drawn = record { salt = "salt"; raw_token = "token"; user_id = "u2"; row_id = "v1" }

abbrev new : User
new = new_user outside request drawn 5

abbrev registered : Accounts
registered = (register outside request drawn 5 one_user).1

abbrev verified : Accounts
verified = (verify_email outside "token" 6 registered).1

registers : (register outside request drawn 5 one_user).0 ≡ ok "b@x"
unfolding register issue_verification send find add_row
registers = refl

not_legacy : is_legacy "argon2" ≡ false
unfolding is_legacy codes
not_legacy = refl

register-verify_email-login_example :
    (login outside "b@x" "secret" none drawn 6 registered ≡ (err "Email not verified", registered))
    × ((verify_email outside "token" 6 registered).0 ≡ ok (response (codes "u2") none new))
    × (login outside "b@x" "secret" none drawn 7 verified
        ≡ (ok (response (codes "u2") none new), verified))
    × (verify_email outside "token" 8 verified ≡ (err "Verification link already used", verified))
unfolding find
register-verify_email-login_example =
    register-verify_email-login outside request drawn 5 one_user "b@x" none drawn 6 6 7 8 registers
      refl refl not_legacy (omega arith)

-- The SHA-256 form: 64 hexadecimal digits.
abbrev old_hash : String
old_hash = "0000000000000000000000000000000000000000000000000000000000000000"

abbrev old_user : Accounts
old_user = accounts (user old_hash ∷ [])

abbrev after_login : Accounts
after_login = (login outside "a" old_hash (some (codes "pc")) drawn 7 old_user).1

abbrev logged_in : LoginResponse
logged_in = record {
  token = codes "u1";
  refresh_token = some "token";
  user_id = "u1";
  email = "a@x";
  username = some "a";
}

logs_in : (login outside "a" old_hash (some (codes "pc")) drawn 7 old_user).0 ≡ ok logged_in
unfolding login verify_password is_legacy codes migrate update_user open_session
    create_device_session find add_row trim trim_start
logs_in = refl

login-login_example :
    (u : User) × (find (answers_to "a") after_login.users ≡ some u)
    × (u.id ≡ "u1")
    × (is_legacy u.password_hash ≡ false)
    × (login outside "a" old_hash none drawn 9 after_login
        ≡ (ok (response (codes u.id) none u), after_login))
login-login_example =
    login-login outside "a" old_hash (some (codes "pc")) drawn drawn 7 9 old_user logged_in logs_in
      refl not_legacy

abbrev after_deletion : Accounts
after_deletion = (confirm_account_deletion outside "delete" 10 one_user).1

confirms : (confirm_account_deletion outside "delete" 10 one_user).0 ≡ ok true
unfolding confirm_account_deletion find
confirms = refl

confirm_account_deletion-Gone_example :
    Gone "u1" one_user after_deletion
    × (confirm_account_deletion outside "delete" 20 after_deletion
        ≡ (err "Invalid deletion token", after_deletion))
unfolding find
confirm_account_deletion-Gone_example =
    confirm_account_deletion-Gone outside "delete" 10 20 one_user deletion ((λ e. refl, tt), tt)
      refl confirms

fresh-Bounded : Bounded 10 one_user.auth
unfolding lookup
fresh-Bounded sid c found = absurd (let bad : none ≡ some c = found in cc)

abbrev secret : Text
secret = codes "0123456789012345678901234567890123456789012"

abbrev key : ApiKey
key = record {
  id = "k1";
  user_id = "u1";
  email = "a@x";
  name = codes "ci";
  key_hash = "hash";
  prefix = codes "01234567";
  created_at = 5;
  last_used_at = none;
  expires_at = none;
  revoked_at = none;
}

abbrev with_key : Accounts
with_key = (create_api_key outside "u1" (codes " ci") secret none "k1" 5 one_user).1

abbrev header : ℕ → AuthState → Result (Option ResolvedAuth) × AuthState
header at st =
    resolve_request_auth outside.tokens config
      (record { authorization = none; x_api_key = some (api_key_prefix ++ secret) }) at st

abbrev used_key : Accounts
used_key = record with_key { auth = (header 6 with_key.auth).1 }

abbrev without_key : Accounts
without_key = (revoke_api_key "u1" "k1" 7 used_key).1

creates_key : (create_api_key outside "u1" (codes " ci") secret none "k1" 5 one_user).0 ≡ ok key
unfolding create_api_key add_api_key codes find add_row trim trim_start
creates_key = refl

-- The key is asked for again at time 8.
abbrev asked_again : AuthState
asked_again = (header 8 without_key.auth).1

revoked_key-Run :
    Run outside.tokens config
      (λ rows keys. IsUnusable (outside.tokens.hash_auth_part secret) keys)
      7
      without_key.auth
      []
      8
      asked_again
      []
revoked_key-Run =
    asks (record { authorization = none; x_api_key = some (api_key_prefix ++ secret) }) 8 here
      (omega arith)

create_api_key-revoke_api_key_example :
    ((header 6 with_key.auth).0 ≡ ok (key_answer secret (some (key_payload key))))
    × (key.user_id ≡ "u1")
    × ((revoke_api_key "u1" "k1" 7 used_key).0 ≡ ok true)
    × ((header 9 asked_again).0 ≡ ok none)
unfolding lookup codes
create_api_key-revoke_api_key_example =
    create_api_key-revoke_api_key outside config "u1" (codes " ci") b'0'
      (codes "123456789012345678901234567890123456789012") none "k1" 5 6 7 one_user key [] 9
      creates_key refl refl refl tt revoked_key-Run

abbrev requested : Accounts
requested = (request_password_reset outside "a@x" "mailed" 10 one_user).1

abbrev changed : Accounts
changed = (reset_password outside "mailed" "new" "salt" 20 requested).1

request_password_reset-reset_password_example :
    ((reset_password outside "mailed" "new" "salt" 20 requested).0 ≡ ok true)
    × (login outside "a@x" "new" none drawn 30 changed
        ≡ (ok (response (codes "u1") none (user "argon2")), changed))
    × (reset_password outside "mailed" "other" "salt" 40 changed
        ≡ (err "Invalid or expired reset token", changed))
unfolding find
request_password_reset-reset_password_example =
    request_password_reset-reset_password outside "a@x" "mailed" "new" "salt" 10 20 30 40 one_user
      (user "argon2") drawn "other" "salt" refl refl refl ((λ e. refl, tt), tt)
      ((λ e. absurd (let bad : true ≡ false = e in cc), tt)) (omega arith) refl not_legacy
