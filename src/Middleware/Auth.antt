-- ===== src/Middleware/Auth.antt =====
-- apps/api/src/middleware/auth.ts. `jsonwebtoken` and SHA-256 are parameters; a header is the list of
-- its code points. The table rows and the two caches are the state; the identifier of the system's
-- user, which `getSystemUserId` reads or makes once, is part of the configuration.
pub mod Requests
pub mod Caching
pub mod Sessions
pub mod Keys
use ddrive.Prelude.{
  ℕ, ◌+◌, ◌<◌, Bool, true, false, not, ◌&&◌, List, [], ◌∷◌, Option, none, some, String, ltb, ◌==◌,
  str_eq, if◌then◌else◌, find, drop, any,
}
use ddrive.Prelude.Tables.{Map, lookup, insert, erase, update_many}
use ddrive.Prelude.Texts.{codes, starts_with}
use ddrive.Storage.Rows.{Result, ok, err, truthy}

abbrev pub Text : Type 0
Text = List ℕ

pub record AuthPayload : Type 0 where
  pub user_id : String
  pub email : String
  pub sid : Option String

pub data AuthVia : Type 0 where
  jwt apikey system : AuthVia

pub record ResolvedAuth : Type 0 where
  pub payload : AuthPayload
  pub via : AuthVia
  pub api_key_auth_part : Option Text

pub record DeviceSession : Type 0 where
  pub id : String
  pub user_id : String
  pub device_name : Option Text
  pub refresh_token_hash : String
  pub created_at : ℕ
  pub last_used_at : ℕ
  pub expires_at : ℕ
  pub revoked_at : Option ℕ

-- A row of `ApiKey`, with the address of its user.
pub record ApiKey : Type 0 where
  pub id : String
  pub user_id : String
  pub email : String
  pub name : Text
  pub key_hash : String
  pub prefix : Text
  pub created_at : ℕ
  pub last_used_at : Option ℕ
  pub expires_at : Option ℕ
  pub revoked_at : Option ℕ

pub record CachedSession : Type 0 where
  pub valid_until : ℕ
  pub is_ok : Bool

pub record CachedKey : Type 0 where
  pub valid_until : ℕ
  pub auth : Option AuthPayload

-- The tables, `sessionCache` and `apiKeyCache`.
pub record AuthState : Type 0 where
  pub sessions : List DeviceSession
  pub api_keys : List ApiKey
  pub session_cache : Map CachedSession
  pub api_key_cache : Map CachedKey

-- `jwt.verify` with the server's secret at a time, and `hashApiKeyAuthPart`.
pub record Tokens : Type 0 where
  pub verify_token : Text → ℕ → Result AuthPayload
  pub hash_auth_part : Text → String

pub record ServerConfig : Type 0 where
  pub is_backend_only : Bool
  pub api_key : Text
  pub system_user_id : String

-- The two headers that are read; an absent one is `none`.
pub record Request : Type 0 where
  pub authorization : Option Text
  pub x_api_key : Option Text

abbrev pub session_cache_ms : ℕ
session_cache_ms = 60000

abbrev pub api_key_cache_ms : ℕ
api_key_cache_ms = 60000

unfoldable pub invalidate_session_cache : String → AuthState → AuthState
invalidate_session_cache sid st = record st { session_cache = erase sid st.session_cache }

abbrev pub is_null {ℓ} : {A : Type ℓ} → Option A → Bool
is_null none = true
is_null (some a) = false

-- `Boolean(session && !session.revokedAt && session.expiresAt > new Date())`.
abbrev pub is_open_session : ℕ → Option DeviceSession → Bool
is_open_session now none = false
is_open_session now (some s) = is_null s.revoked_at && ltb now s.expires_at

-- What the query of `isSessionActive` gives when the database answers it.
abbrev pub read_session : String → ℕ → AuthState → Bool
read_session sid now st =
    is_open_session now (find (λ (s : DeviceSession). str_eq s.id sid) st.sessions)

-- What it then writes to the cache; the time is that of its beginning.
abbrev pub remember_session : String → ℕ → Bool → AuthState → AuthState
remember_session sid started is_ok st =
    let entry : CachedSession = record {
      valid_until = started + session_cache_ms;
      is_ok = is_ok;
    } in
    record st { session_cache = insert sid entry st.session_cache }

-- The call when nothing else runs while the query is awaited; what else may run is in `Requests`.
unfoldable pub is_session_active : String → ℕ → AuthState → Bool × AuthState
is_session_active sid now st =
    let found = read_session sid now st in
    let fresh : Bool × AuthState = (found, remember_session sid now found st) in
    elim (lookup sid st.session_cache) [
      | none ↦ fresh
      | some c ↦ if ltb now c.valid_until then (c.is_ok, st) else fresh
    ]

-- `auth?.startsWith("Bearer ")`, and `auth.slice(7)`; an empty token counts as none.
unfoldable pub extract_token : Request → Option Text
extract_token r = elim r.authorization [
  | none ↦ none
  | some auth ↦ if starts_with (codes "Bearer ") auth then some (drop 7 auth) else none
]

abbrev is_empty : Text → Bool
is_empty [] = true
is_empty (c ∷ cs) = false

abbrev pub api_key_prefix : Text
api_key_prefix = codes "ddv4_"

abbrev pub leaked_api_key : String
leaked_api_key = "LeakedApiKeyError"

-- `err` is the `LeakedApiKeyError`.
unfoldable pub parse_api_key_header : Text → Result (Option Text)
parse_api_key_header raw =
    let body = drop 5 raw in
    if not (starts_with api_key_prefix raw)
    then ok none
    else if is_empty body
    then ok none
    else if any (λ c. c == b'.') body
    then err leaked_api_key
    else ok (some body)

unfoldable pub invalidate_api_key_cache : Option String → AuthState → AuthState
invalidate_api_key_cache none st = record st { api_key_cache = [] }
invalidate_api_key_cache (some k) st =
    if str_eq k ""
    then record st { api_key_cache = [] }
    else record st { api_key_cache = erase k st.api_key_cache }

abbrev pub is_usable_key : ℕ → ApiKey → Bool
is_usable_key now k = is_null k.revoked_at && elim k.expires_at [ none ↦ true | some t ↦ ltb now t ]

abbrev pub key_payload : ApiKey → AuthPayload
key_payload k = record { user_id = k.user_id; email = k.email; sid = none }

-- `lastUsedAt` of the row is set in the background.
unfoldable pub touch_key : String → ℕ → List ApiKey → List ApiKey
touch_key id now keys =
    update_many (λ (k : ApiKey). str_eq k.id id) (λ k. record k { last_used_at = some now }) keys

-- What the query of `authFromApiKey` gives when the database answers it.
abbrev pub read_key : String → ℕ → AuthState → Option AuthPayload
read_key key_hash now st = elim (find (λ (k : ApiKey). str_eq k.key_hash key_hash) st.api_keys) [
  | none ↦ none
  | some k ↦ if is_usable_key now k then some (key_payload k) else none
]

-- What it then writes to the cache; the time is that of its beginning.
abbrev pub remember_key : String → ℕ → Option AuthPayload → AuthState → AuthState
remember_key key_hash started auth st =
    let entry : CachedKey = record { valid_until = started + api_key_cache_ms; auth = auth } in
    record st { api_key_cache = insert key_hash entry st.api_key_cache }

-- `authFromApiKey` behind the cache, when nothing else runs while the query is awaited.
unfoldable pub load_key : String → ℕ → AuthState → Option AuthPayload × AuthState
unfolding touch_key
load_key key_hash now st =
    let refused : Option AuthPayload × AuthState = (none, remember_key key_hash now none st) in
    elim (find (λ (k : ApiKey). str_eq k.key_hash key_hash) st.api_keys) [
      | none ↦ refused
      | some k ↦
          let st' = remember_key key_hash now (some (key_payload k)) st in
          if is_usable_key now k
          then (some (key_payload k), record st' { api_keys = touch_key k.id now st'.api_keys })
          else refused
    ]

module _ (t : Tokens) where
  unfoldable pub verify_session_token : Text → ℕ → AuthState → Result AuthPayload × AuthState
  verify_session_token token now st = elim (t.verify_token token now) [
    | err e ↦ (err e, st)
    | ok p ↦ elim p.sid [
      | none ↦ (ok p, st)
      | some sid ↦
          let (active, st') = is_session_active sid now st in
          if str_eq sid ""
          then (ok p, st)
          else if active
          then (ok p, st')
          else (err "Session revoked or expired", st')
    ]
  ]

  unfoldable pub authenticate_request : Request → ℕ → AuthState → Result AuthPayload × AuthState
  authenticate_request r now st = elim (extract_token r) [
    | none ↦ (err "Authentication required", st)
    | some [] ↦ (err "Authentication required", st)
    | some (c ∷ cs) ↦ verify_session_token (c ∷ cs) now st
  ]

  auth_from_api_key : Text → ℕ → AuthState → Result (Option AuthPayload) × AuthState
  unfolding load_key
  auth_from_api_key raw now st = elim (parse_api_key_header raw) [
    | err e ↦ (err e, st)
    | ok none ↦ (ok none, st)
    | ok (some auth_part) ↦
        let key_hash = t.hash_auth_part auth_part in
        let (auth, st') = load_key key_hash now st in
        elim (lookup key_hash st.api_key_cache) [
          | none ↦ (ok auth, st')
          | some c ↦ if ltb now c.valid_until then (ok c.auth, st) else (ok auth, st')
        ]
  ]

  abbrev resolved : AuthVia → Option Text → AuthPayload → ResolvedAuth
  resolved via part p = record { payload = p; via = via; api_key_auth_part = part }

  abbrev part_of : Result (Option Text) → Option Text
  part_of (ok part) = part
  part_of (err e) = none

  -- The branch of a bearer token: a token that is refused makes no other way in.
  auth_from_bearer : Text → ℕ → AuthState → Result (Option ResolvedAuth) × AuthState
  auth_from_bearer token now st =
      let (p, st') = verify_session_token token now st in
      elim p [ err e ↦ (ok none, st') | ok payload ↦ (ok (some (resolved jwt none payload)), st') ]

  abbrev text_eq : Text → Text → Bool
  text_eq [] [] = true
  text_eq (c ∷ cs) (d ∷ ds) = c == d && text_eq cs ds
  text_eq _ _ = false

  -- The branch of the header `x-api-key`.
  auth_from_header : ServerConfig → Text → ℕ → AuthState → Result (Option ResolvedAuth) × AuthState
  unfolding auth_from_api_key
  auth_from_header cfg header now st =
      let (a, st') = auth_from_api_key header now st in
      let system_payload : AuthPayload = record {
        user_id = cfg.system_user_id;
        email = "system@ddv4.local";
        sid = none;
      } in
      if starts_with api_key_prefix header
      then elim a [
        | err e ↦ (err e, st')
        | ok none ↦ (ok none, st')
        | ok (some payload) ↦
            (ok (some (resolved apikey (part_of (parse_api_key_header header)) payload)), st')
      ]
      else if cfg.is_backend_only && (not (is_empty cfg.api_key) && text_eq header cfg.api_key)
      then (ok (some (resolved system none system_payload)), st)
      else (ok none, st)

  unfoldable pub resolve_request_auth :
      ServerConfig → Request → ℕ → AuthState → Result (Option ResolvedAuth) × AuthState
  unfolding auth_from_bearer auth_from_header
  resolve_request_auth cfg r now st =
      let by_key : Result (Option ResolvedAuth) × AuthState = elim r.x_api_key [
        | none ↦ (ok none, st)
        | some [] ↦ (ok none, st)
        | some (c ∷ cs) ↦ auth_from_header cfg (c ∷ cs) now st
      ] in
      elim (extract_token r) [
        | none ↦ by_key
        | some [] ↦ by_key
        | some (c ∷ cs) ↦ auth_from_bearer (c ∷ cs) now st
      ]
