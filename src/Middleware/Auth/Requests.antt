-- ===== src/Middleware/Auth/Requests.antt =====
-- apps/api/src/middleware/auth.ts: what requests do to the state, and the runs of the process.
use ddrive.Prelude.{
  ℕ, ◌≤◌, Bool, List, [], ◌∷◌, ◌++◌, Option, none, some, String, inl, inr, Option-cases, arith, All,
}
use ddrive.Storage.Rows.{Result, ok, Result-cases}
use ddrive.Middleware.Auth.{
  Text, AuthPayload, ResolvedAuth, read_session, remember_session, read_key, remember_key,
  DeviceSession, ApiKey, AuthState, Tokens, ServerConfig, Request, is_session_active, load_key,
  verify_session_token, parse_api_key_header, auth_from_api_key, auth_from_bearer, auth_from_header,
  extract_token, resolve_request_auth, invalidate_session_cache, invalidate_api_key_cache,
}

module _ (t : Tokens) (now : ℕ) (P : AuthState → Type 0)
    (loaded : (key_hash : String) (st : AuthState) → P st → P (load_key key_hash now st).1)
    (checked : (sid : String) (st : AuthState) → P st → P (is_session_active sid now st).1) where
  verify_session_token-keeps :
      (token : Text) (st : AuthState) → P st → P (verify_session_token t token now st).1
  unfolding verify_session_token
  verify_session_token-keeps token st p = elim (Result-cases (t.verify_token token now)) [
    | inl (payload, e) ↦ elim (Option-cases payload.sid) [
      | inl none_ ↦ ground (arith, p, e, none_)
      | inr (sid, some_) ↦ ground (arith, p, e, some_, checked sid st p)
    ]
    | inr (message, e) ↦ ground (arith, p, e)
  ]

  auth_from_api_key-keeps :
      (raw : Text) (st : AuthState) → P st → P (auth_from_api_key t raw now st).1
  unfolding auth_from_api_key
  auth_from_api_key-keeps raw st p = elim (Result-cases (parse_api_key_header raw)) [
    | inl (part, e) ↦ elim (Option-cases part) [
      | inl none_ ↦ ground (arith, p, e, none_)
      | inr (key, some_) ↦ ground (arith, p, e, some_, loaded (t.hash_auth_part key) st p)
    ]
    | inr (message, e) ↦ ground (arith, p, e)
  ]

  auth_from_header-keeps :
      (cfg : ServerConfig) (header : Text) (st : AuthState)
      → P st
      → P (auth_from_header t cfg header now st).1
  unfolding auth_from_header
  auth_from_header-keeps cfg header st p = ground (arith, p, auth_from_api_key-keeps header st p)

  auth_from_bearer-keeps :
      (token : Text) (st : AuthState) → P st → P (auth_from_bearer t token now st).1
  unfolding auth_from_bearer
  auth_from_bearer-keeps token st p = ground (arith, verify_session_token-keeps token st p)

  -- What holds of a state, and is kept where the look-up of a key or of a session writes its cache,
  -- holds when a request has been resolved.
  pub resolve_request_auth-keeps :
      (cfg : ServerConfig) (r : Request) (st : AuthState)
      → P st
      → P (resolve_request_auth t cfg r now st).1
  unfolding resolve_request_auth
  resolve_request_auth-keeps cfg r st p = elim (Option-cases (extract_token r)) [
    | inl e ↦ rw (e, resolve_request_auth) by_key
    | inr ([], e) ↦ rw (e, resolve_request_auth) by_key
    | inr (c ∷ cs, e) ↦ rw (e, resolve_request_auth) (auth_from_bearer-keeps (c ∷ cs) st p)
  ]
    where
      by_key :
          P
            (elim r.x_api_key as (λ x. Result (Option ResolvedAuth) × AuthState) [
              | none ↦ (ok none, st)
              | some [] ↦ (ok none, st)
              | some (c ∷ cs) ↦ auth_from_header t cfg (c ∷ cs) now st
            ]).1
      by_key = elim (Option-cases r.x_api_key) [
        | inl e ↦ rw e p
        | inr ([], e) ↦ rw e p
        | inr (c ∷ cs, e) ↦ rw e (auth_from_header-keeps cfg (c ∷ cs) st p)
      ]

-- A look-up that has had its answer from the database and has not written the cache yet: what was asked,
-- when the call began, and the answer.
pub data Flight : Type 0 where
  session_flight : (sid : String) (started : ℕ) (is_ok : Bool) → Flight
  key_flight : (key_hash : String) (started : ℕ) (auth : Option AuthPayload) → Flight

-- The look-up goes on, and writes the cache.
unfoldable pub settle_flight : Flight → AuthState → AuthState
settle_flight (session_flight sid started is_ok) st = remember_session sid started is_ok st
settle_flight (key_flight key_hash started auth) st = remember_key key_hash started auth st

abbrev pub began : Flight → ℕ
began (session_flight sid started is_ok) = started
began (key_flight key_hash started auth) = started

-- The runs of the process at later and later times: requests, each at once or with a look-up whose
-- answer comes at one step and is written to the cache at another, in any order, and between them
-- writes to the tables, with the cache dropped or not. The tables that are written are among `Allowed`.
module _ (t : Tokens) (cfg : ServerConfig)
    (Allowed : List DeviceSession → List ApiKey → Type 0) where
  pub data Run (t0 : ℕ) (st0 : AuthState) (fs0 : List Flight)
      : ℕ → AuthState → List Flight → Type 0 where
    here : Run t0 st0 fs0 t0 st0 fs0
    request :
        (r : Request) (now : ℕ) {before : ℕ} {st : AuthState} {fs : List Flight}
        → Run t0 st0 fs0 before st fs
        → before ≤ now
        → Run t0 st0 fs0 now (resolve_request_auth t cfg r now st).1 fs
    reads_session :
        (sid : String) (started now : ℕ) {before : ℕ} {st : AuthState} {fs : List Flight}
        → Run t0 st0 fs0 before st fs
        → before ≤ now
        → started ≤ now
        → Run t0 st0 fs0 now st (session_flight sid started (read_session sid now st) ∷ fs)
    reads_key :
        (key_hash : String) (started now : ℕ) {before : ℕ} {st : AuthState} {fs : List Flight}
        → Run t0 st0 fs0 before st fs
        → before ≤ now
        → started ≤ now
        → Run t0 st0 fs0 now st (key_flight key_hash started (read_key key_hash now st) ∷ fs)
    settles :
        (f : Flight) (earlier later : List Flight) {now : ℕ} {st : AuthState}
        → Run t0 st0 fs0 now st (earlier ++ f ∷ later)
        → Run t0 st0 fs0 now (settle_flight f st) (earlier ++ later)
    write :
        (rows : List DeviceSession) (keys : List ApiKey) {now : ℕ} {st : AuthState}
        {fs : List Flight}
        → Allowed rows keys
        → Run t0 st0 fs0 now st fs
        → Run t0 st0 fs0 now (record st { sessions = rows; api_keys = keys }) fs
    invalidate :
        (sid : String) {now : ℕ} {st : AuthState} {fs : List Flight}
        → Run t0 st0 fs0 now st fs
        → Run t0 st0 fs0 now (invalidate_session_cache sid st) fs
    invalidate_key :
        (key_hash : Option String) {now : ℕ} {st : AuthState} {fs : List Flight}
        → Run t0 st0 fs0 now st fs
        → Run t0 st0 fs0 now (invalidate_api_key_cache key_hash st) fs

  pub Run-time :
      {t0 : ℕ} {st0 : AuthState} {fs0 : List Flight} {t1 : ℕ} {st1 : AuthState} {fs1 : List Flight}
      → Run t0 st0 fs0 t1 st1 fs1
      → t0 ≤ t1
  Run-time here = omega arith
  Run-time (request r now run le) = omega (arith, Run-time run, le)
  Run-time (reads_session sid started now run le begun) = omega (arith, Run-time run, le)
  Run-time (reads_key key_hash started now run le begun) = omega (arith, Run-time run, le)
  Run-time (settles f earlier later run) = Run-time run
  Run-time (write rows keys allowed run) = Run-time run
  Run-time (invalidate sid run) = Run-time run
  Run-time (invalidate_key key run) = Run-time run

-- What holds of all look-ups holds of one, and of the others.
pub All-middle :
    (P : Flight → Type 0) (f : Flight) (earlier later : List Flight)
    → All P (earlier ++ f ∷ later)
    → P f × All P (earlier ++ later)
All-middle P f [] later h = h
All-middle P f (g ∷ earlier) later (k, h) =
    let (p, rest) = All-middle P f earlier later h in (p, (k, rest))
