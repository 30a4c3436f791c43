-- ===== src/Resolvers/Accounts/Keys.antt =====
-- apps/api/src/resolvers/auth.ts: API keys.
use ddrive.Prelude.{
  ℕ, Bool, true, false, ◌&&◌, ◌||◌, List, [], ◌∷◌, Option, none, some, String, map, ltb, leb,
  str_eq, if◌then◌else◌, filter, find, length, take,
}
use mathlib.Core.List.{reverse}
use ddrive.Prelude.Sort.{sort_by}
use ddrive.Prelude.Tables.{update_many}
use ddrive.Storage.Rows.{Result, ok, err}
use ddrive.Middleware.Auth.{Text, ApiKey, is_null, invalidate_api_key_cache}
use ddrive.Resolvers.Accounts.{Accounts, User, Outside, is_empty_text, trim, add_row, find_user}

-- `expiresAt && expiresAt <= new Date()`.
abbrev pub is_past : ℕ → Option ℕ → Bool
is_past now none = false
is_past now (some t) = leb t now

-- `input.expiresAt ? new Date(input.expiresAt) : null`; the inner option is a date that is no number.
abbrev pub date_of : (Text → Option ℕ) → Option Text → Result (Option ℕ)
date_of parse none = ok none
date_of parse (some []) = ok none
date_of parse (some (c ∷ cs)) = elim (parse (c ∷ cs)) [
  | none ↦ err "Invalid expiresAt"
  | some t ↦ ok (some t)
]

module _ (o : Outside) where
  abbrev pub new_api_key : User → Text → Text → Option ℕ → String → ℕ → ApiKey
  new_api_key u name auth_part expires_at id now = record {
    id = id;
    user_id = u.id;
    email = u.email;
    name = trim name;
    key_hash = o.tokens.hash_auth_part auth_part;
    prefix = take 8 auth_part;
    created_at = now;
    last_used_at = none;
    expires_at = expires_at;
    revoked_at = none;
  }

  -- The row of a key needs the row of its user.
  unfoldable pub add_api_key :
      String → Text → Text → Option ℕ → String → ℕ → Accounts → Result ApiKey × Accounts
  add_api_key user_id name auth_part expires_at id now w = elim (find_user user_id w.users) [
    | none ↦ (err "Foreign key constraint failed", w)
    | some u ↦
        let key = new_api_key u name auth_part expires_at id now in
        elim (add_row (λ (k : ApiKey). str_eq k.key_hash key.key_hash || str_eq k.id id) key
          w.auth.api_keys) [
            | err e ↦ (err e, w)
            | ok rows ↦ (ok key, record w { auth = record w.auth { api_keys = rows } })
          ]
  ]

  unfoldable pub create_api_key :
      String → Text → Text → Option Text → String → ℕ → Accounts → Result ApiKey × Accounts
  unfolding add_api_key
  create_api_key user_id name auth_part expires_at id now w =
      if is_empty_text (trim name)
      then (err "API key name is required", w)
      else if ltb (length auth_part) 43
      then (err "API key secret is too short", w)
      else elim (date_of o.parse_date expires_at) [
        | err e ↦ (err e, w)
        | ok date ↦
            if is_past now date
            then (err "expiresAt must be in the future", w)
            else add_api_key user_id name auth_part date id now w
      ]

-- What is selected of a key.
pub record KeyView : Type 0 where
  pub id : String
  pub name : Text
  pub prefix : Text
  pub created_at : ℕ
  pub last_used_at : Option ℕ
  pub expires_at : Option ℕ

abbrev pub view_of : ApiKey → KeyView
view_of k = record {
  id = k.id;
  name = k.name;
  prefix = k.prefix;
  created_at = k.created_at;
  last_used_at = k.last_used_at;
  expires_at = k.expires_at;
}

unfoldable pub list_api_keys : String → Accounts → List KeyView
list_api_keys user_id w = map view_of (
    reverse (
      sort_by (λ (k : ApiKey). k.created_at)
        (filter (λ (k : ApiKey). str_eq k.user_id user_id && is_null k.revoked_at)
          w.auth.api_keys)))

abbrev pub owned_key : String → String → ApiKey → Bool
owned_key user_id id k = str_eq k.id id && str_eq k.user_id user_id

unfoldable pub revoke_api_key : String → String → ℕ → Accounts → Result Bool × Accounts
revoke_api_key user_id id now w = elim (find (owned_key user_id id) w.auth.api_keys) [
  | none ↦ (err "API key not found", w)
  | some key ↦ (
    ok true,
    record w {
      auth = invalidate_api_key_cache (some key.key_hash) (record w.auth {
        api_keys =
            update_many (λ (k : ApiKey). str_eq k.id id) (λ k. record k { revoked_at = some now })
              w.auth.api_keys;
      });
    },
  )
]
