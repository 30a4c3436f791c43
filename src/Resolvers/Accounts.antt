-- ===== src/Resolvers/Accounts.antt =====
-- apps/api/src/resolvers/auth.ts: the tables of accounts, passwords, device sessions and API keys.
-- SHA-256, argon2, the signing of tokens, the mail server and the parsing of dates are parameters;
-- random tokens, the identifiers that the database makes up and `new Date()` are arguments. A
-- name or the secret part of a key is the list of its UTF-16 units.
pub mod Sessions
pub mod Keys
pub mod Registration
pub mod Passwords
pub mod Deletion
pub mod Revoking
pub mod Registered
pub mod Verifying
pub mod Migrating
pub mod Deleted
pub mod Keyed
pub mod Resetting
use ddrive.Prelude.{
  ℕ, ◌+◌, ◌*◌, ◌≡◌, Bool, true, false, not, ◌&&◌, ◌||◌, List, [], ◌∷◌, ◌++◌, Option, none, some,
  String, Option-cases, arith, inl, inr, map, ltb, leb, ◌==◌, str_eq, if◌then◌else◌, filter, find,
  length, take, all,
}
use mathlib.Core.List.{reverse}
use ddrive.Prelude.Sort.{sort_by}
use ddrive.Prelude.Tables.{update_many}
use ddrive.Prelude.Texts.{codes, is_digit}
use ddrive.Storage.Rows.{Result, ok, err}
use ddrive.Database.Rows.{Db}
use ddrive.Database.Actions.{Done}
use ddrive.Middleware.Auth.{
  Text, Tokens, AuthPayload, DeviceSession, ApiKey, AuthState, is_null, invalidate_session_cache,
  invalidate_api_key_cache,
}
use ddrive.Resolvers.Sharing.{Hashing, same_bytes}

pub record User : Type 0 where
  pub id : String
  pub email : String
  pub username : Option String
  pub password_hash : String
  pub password_reset_token : Option String
  pub password_reset_expires : Option ℕ
  pub email_verified : Bool
  pub created_at : ℕ

pub record EmailVerification : Type 0 where
  pub id : String
  pub user_id : String
  pub token_hash : String
  pub expires_at : ℕ
  pub used_at : Option ℕ
  pub created_at : ℕ

pub record AccountDeletion : Type 0 where
  pub id : String
  pub user_id : String
  pub token_hash : String
  pub expires_at : ℕ
  pub used_at : Option ℕ
  pub created_at : ℕ

pub data MailKind : Type 0 where
  reset_mail verification_mail deletion_mail : MailKind

-- What the mailer is called with.
pub record Mail : Type 0 where
  pub kind : MailKind
  pub to : String
  pub username : Option String
  pub link : Text

-- The tables, the caches of the middleware, the calls of the mailer, whatever came of them, and the
-- plugins' events `user:registered`.
pub record Accounts : Type 0 where
  pub users : List User
  pub verifications : List EmailVerification
  pub account_deletions : List AccountDeletion
  pub auth : AuthState
  pub db : Db
  pub mails : List Mail
  pub registered : List (String × String)

-- `hashApiKeyAuthPart` and `jwt.verify`, `argon2.hash` with the salt that it draws, `argon2.verify`, and
-- `signToken` with its duration, if one is given, at a time.
pub record Outside : Type 0 where
  pub hashing : Hashing
  pub tokens : Tokens
  pub argon2_hash : String → String → String
  pub argon2_verify : String → String → Result Bool
  pub sign_token : AuthPayload → Option Text → ℕ → Text
  pub send_mail : Mail → Result Done
  pub parse_date : Text → Option ℕ
  pub frontend_url : Text

abbrev pub reset_token_ttl_ms : ℕ
reset_token_ttl_ms = 60 * 60 * 1000

abbrev pub verify_token_ttl_ms : ℕ
verify_token_ttl_ms = 24 * 60 * 60 * 1000

abbrev pub delete_account_token_ttl_ms : ℕ
delete_account_token_ttl_ms = 60 * 60 * 1000

abbrev pub session_refresh_ttl_days : ℕ
session_refresh_ttl_days = 180

abbrev pub session_access_token_ttl : Text
session_access_token_ttl = codes "1h"

-- `s.trim()`: white space and line ends of the language.
abbrev pub is_space : ℕ → Bool
is_space c =
    (leb 9 c && leb c 13)
    || (c == 32)
    || (c == 160)
    || (c == 5760)
    || (leb 8192 c && leb c 8202)
    || (c == 8232)
    || (c == 8233)
    || (c == 8239)
    || (c == 8287)
    || (c == 12288)
    || (c == 65279)

unfoldable pub trim_start : Text → Text
trim_start [] = []
trim_start (c ∷ cs) = let rest = trim_start cs in if is_space c then rest else c ∷ cs

unfoldable pub trim : Text → Text
unfolding trim_start
trim s = reverse (trim_start (reverse (trim_start s)))

abbrev pub is_empty_text : Text → Bool
is_empty_text [] = true
is_empty_text (c ∷ cs) = false

-- `[0-9a-f]`.
abbrev pub is_hex : ℕ → Bool
is_hex c = is_digit c || (leb b'a' c && leb c b'f')

-- `LEGACY_SHA256_RE.test(hash)`.
unfoldable pub is_legacy : String → Bool
is_legacy hash = (length (codes hash) == 64) && all is_hex (codes hash)

-- A new row behind the others; a value of a unique column that is taken is an error.
unfoldable pub add_row {ℓ} : {Row : Type ℓ} → (Row → Bool) → Row → List Row → Result (List Row)
add_row taken row rows = elim (find taken rows) [
  | some old ↦ err "Unique constraint failed"
  | none ↦ ok (rows ++ row ∷ [])
]

-- A row is added behind rows none of which has its keys.
pub add_row-ok {ℓ} :
    {Row : Type ℓ} (taken : Row → Bool) (row : Row) (rows after : List Row)
    → add_row taken row rows ≡ ok after
    → (find taken rows ≡ none) × (after ≡ rows ++ row ∷ [])
unfolding add_row
add_row-ok taken row rows after e = elim (Option-cases (find taken rows)) [
  | inl t ↦ (t, ground (arith, e, t))
  | inr (old, t) ↦ absurd (ground (arith, e, t))
]

abbrev pub find_user : String → List User → Option User
find_user id users = find (λ (u : User). str_eq u.id id) users

abbrev pub user_by_email : String → List User → Option User
user_by_email email users = find (λ (u : User). str_eq u.email email) users

-- A nullable column that equals a text.
abbrev pub holds_text : Option String → String → Bool
holds_text none s = false
holds_text (some t) s = str_eq t s

unfoldable pub update_user : String → (User → User) → Accounts → Accounts
update_user id f w = record w { users = update_many (λ (u : User). str_eq u.id id) f w.users }

unfoldable pub update_session : String → (DeviceSession → DeviceSession) → AuthState → AuthState
update_session id f st = record st {
  sessions = update_many (λ (s : DeviceSession). str_eq s.id id) f st.sessions;
}

module _ (o : Outside) where
  unfoldable pub hash_password : String → String → String
  hash_password salt password = o.argon2_hash salt password

  unfoldable pub verify_password : String → String → Bool
  verify_password password hash =
      if is_legacy hash
      then same_bytes (o.hashing.from_hex (o.hashing.sha256_hex password)) (o.hashing.from_hex hash)
      else elim (o.argon2_verify hash password) [ ok b ↦ b | err e ↦ false ]

  -- `signToken({ userId, email, sid })`.
  abbrev pub session_token : String → String → String → ℕ → Text
  session_token user_id email sid now =
      o.sign_token (record { user_id = user_id; email = email; sid = some sid })
        (some session_access_token_ttl) now
