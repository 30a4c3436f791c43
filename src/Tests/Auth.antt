-- ===== src/Tests/Auth.antt =====
-- apps/api/src/middleware/auth.ts on a session that is revoked while its answer is cached.
use ddrive.Prelude.{
  ◌≡◌, refl, true, false, inr, [], ◌∷◌, none, some, String, arith, find, eq_iff, ◌≢◌,
}
use ddrive.Prelude.Tables.{lookup, insert, erase}
use ddrive.Prelude.Texts.{codes, starts_with, strip_prefix}
use ddrive.Storage.Rows.{ok, err}
use ddrive.Middleware.Auth.{
  AuthPayload, AuthState, Tokens, ServerConfig, Request, jwt, apikey, parse_api_key_header,
  load_key, touch_key, is_session_active, verify_session_token, extract_token, resolve_request_auth,
  invalidate_session_cache,
}
use ddrive.Middleware.Auth.Requests.{
  Flight, session_flight, settle_flight, Run, here, request, settles,
}
use ddrive.Middleware.Auth.Keys.{GoodKeyUntil, IsUnusable}
use ddrive.Middleware.Auth.Caching.{Bounded, IsClosed}
use ddrive.Middleware.Auth.Sessions.{verify_session_token-closed}

abbrev payload : AuthPayload
payload = record { user_id = "u1"; email = "u1@example.org"; sid = some "s1" }

abbrev tokens : Tokens
tokens = record { verify_token = λ token now. ok payload; hash_auth_part = λ part. "hash" }

abbrev config : ServerConfig
config = record { is_backend_only = false; api_key = []; system_user_id = "system" }

abbrev with_bearer : Request
with_bearer = record { authorization = some (codes "Bearer x"); x_api_key = none }

s1_named : ◌≢◌ {A = String} "s1" ""
s1_named e = ground (arith, e, eq_iff "s1" "")

-- The session was checked at time 0 and revoked at time 5.
abbrev revoked_session : AuthState
revoked_session = record {
  sessions =
      record {
        id = "s1";
        user_id = "u1";
        device_name = none;
        refresh_token_hash = "r1";
        created_at = 0;
        last_used_at = 0;
        expires_at = 900000;
        revoked_at = some 5;
      }
      ∷ [];
  api_keys = [];
  session_cache = ("s1", record { valid_until = 60000; is_ok = true }) ∷ [];
  api_key_cache = [];
}

abbrev after_request : AuthState
after_request = (resolve_request_auth tokens config with_bearer 100 revoked_session).1

-- Within the minute, the cached answer still lets the session in.
let_in_from_cache :
    (resolve_request_auth tokens config with_bearer 100 revoked_session).0
    ≡ ok (some (record { payload = payload; via = jwt; api_key_auth_part = none }))
unfolding resolve_request_auth extract_token starts_with strip_prefix codes verify_session_token
    is_session_active lookup insert find
let_in_from_cache = refl

revoked-IsClosed : IsClosed 5 "s1" revoked_session.sessions
unfolding find
revoked-IsClosed = refl

revoked-Bounded : Bounded 5 revoked_session
unfolding lookup
revoked-Bounded sid c found = inr (ground (arith, found))

-- A look-up that began before the revocation and found the session open.
abbrev seen_open : Flight
seen_open = session_flight "s1" 4 true

-- Its answer is written to the cache after the revocation, and then a request is made.
abbrev after_flight : AuthState
after_flight =
    (resolve_request_auth tokens config with_bearer 100 (settle_flight seen_open revoked_session)).1

late_request :
    Run tokens config
      (λ rows keys. IsClosed 5 "s1" rows)
      5
      revoked_session
      (seen_open ∷ [])
      100
      after_flight
      []
late_request = request with_bearer 100 (settles seen_open [] [] here) (omega arith)

-- So that the session is let in, although its cached answer was dropped.
let_in_after_drop :
    (verify_session_token tokens
      (codes "x")
      100
      (settle_flight seen_open (invalidate_session_cache "s1" revoked_session))).0
    ≡ ok payload
unfolding settle_flight invalidate_session_cache verify_session_token is_session_active lookup
    insert erase
let_in_after_drop = refl

verify_session_token-closed_example :
    (verify_session_token tokens (codes "x") 60005 after_flight).0
    ≡ err "Session revoked or expired"
verify_session_token-closed_example =
    verify_session_token-closed tokens config "s1" (codes "x") payload 60005 revoked-Bounded
      (omega arith, tt) revoked-IsClosed late_request (omega arith) refl refl s1_named

-- An API key that was checked at time 0 and revoked at time 5.
abbrev revoked_key : AuthState
revoked_key = record {
  sessions = [];
  api_keys =
      record {
        id = "k1";
        user_id = "u1";
        email = "u1@example.org";
        name = codes "key";
        key_hash = "hash";
        prefix = codes "abc";
        created_at = 0;
        last_used_at = none;
        expires_at = none;
        revoked_at = some 5;
      }
      ∷ [];
  session_cache = [];
  api_key_cache = ("hash", record { valid_until = 60000; auth = some payload }) ∷ [];
}

abbrev with_key : Request
with_key = record { authorization = none; x_api_key = some (codes "ddv4_abc") }

abbrev after_key_request : AuthState
after_key_request = (resolve_request_auth tokens config with_key 100 revoked_key).1

key_let_in_from_cache :
    (resolve_request_auth tokens config with_key 100 revoked_key).0
    ≡ ok (some (record { payload = payload; via = apikey; api_key_auth_part = some (codes "abc") }))
unfolding resolve_request_auth extract_token starts_with strip_prefix codes parse_api_key_header
    load_key touch_key lookup find
key_let_in_from_cache = refl

revoked_key-GoodKeyUntil : GoodKeyUntil "hash" 60005 revoked_key
unfolding lookup
revoked_key-GoodKeyUntil c found = inr (ground (arith, found))

revoked_key-IsUnusable : IsUnusable "hash" revoked_key.api_keys
unfolding find
revoked_key-IsUnusable now = refl

key_request :
    Run tokens config
      (λ rows keys. IsUnusable "hash" keys)
      5
      revoked_key
      []
      100
      after_key_request
      []
key_request = request with_key 100 here (omega arith)

key_parsed : parse_api_key_header (codes "ddv4_abc") ≡ ok (some (codes "abc"))
unfolding parse_api_key_header starts_with strip_prefix codes
key_parsed = refl
