-- ===== src/Middleware/Auth/Keys.antt =====
-- apps/api/src/middleware/auth.ts: how long a revoked API key is still let in.
use ddrive.Prelude.{
  ℕ, ◌+◌, ◌≤◌, Bool, true, false, List, [], ◌∷◌, Option, none, some, String, ◌≡◌, refl, ap, sym,
  subst, ◌∙◌, ◌⊎◌, inl, inr, Option-cases, Bool-cases, find, str_eq, arith, eq_iff, All, All-mono,
}
use ddrive.Prelude.Tables.{lookup, lookup-insert, lookup-erase, update_many}
use ddrive.Prelude.Texts.{starts_with}
use ddrive.Storage.Rows.{ok}
use ddrive.Middleware.Auth.{
  Text, ApiKey, AuthState, AuthPayload, ResolvedAuth, apikey, CachedKey, Tokens, ServerConfig,
  Request, api_key_cache_ms, api_key_prefix, is_session_active, is_usable_key, key_payload,
  touch_key, read_key, remember_key, load_key, parse_api_key_header, auth_from_api_key,
  auth_from_header, extract_token, resolve_request_auth, invalidate_session_cache,
  invalidate_api_key_cache,
}
use ddrive.Middleware.Auth.Requests.{
  Flight, session_flight, key_flight, settle_flight, began, Run, All-middle, here, request,
  reads_session, reads_key, settles, write, invalidate, invalidate_key, resolve_request_auth-keeps,
}

abbrev usable_at : ℕ → Option ApiKey → Bool
usable_at now none = false
usable_at now (some k) = is_usable_key now k

abbrev pub key_of : String → List ApiKey → Option ApiKey
key_of key_hash keys = find (λ (k : ApiKey). str_eq k.key_hash key_hash) keys

-- No row of the hash can be used at any time.
abbrev pub IsUnusable : String → List ApiKey → Type 0
IsUnusable key_hash keys = (now : ℕ) → usable_at now (key_of key_hash keys) ≡ false

-- No answer that the cache holds for a key as a good one lasts beyond a time.
abbrev pub GoodKeyUntil : String → ℕ → AuthState → Type 0
GoodKeyUntil key_hash bound st =
    (c : CachedKey)
    → lookup key_hash st.api_key_cache ≡ some c
    → (c.auth ≡ none) ⊎ (c.valid_until ≤ bound)

record Refused (key_hash : String) (bound : ℕ) (st : AuthState) : Type 0 where
  good : GoodKeyUntil key_hash bound st
  closed : IsUnusable key_hash st.api_keys

usable_at-touch_key :
    (id key_hash : String) (at now : ℕ) (keys : List ApiKey)
    → usable_at now (key_of key_hash (touch_key id at keys)) ≡ usable_at now (key_of key_hash keys)
unfolding touch_key update_many find
usable_at-touch_key id key_hash at now [] = refl
usable_at-touch_key id key_hash at now (k ∷ keys) =
    ground (arith, usable_at-touch_key id key_hash at now keys)

-- What the look-up of a key leaves: the tables, but for the time of use, and a new entry.
pub load_key-keys :
    (asked key_hash : String) (now later : ℕ) (st : AuthState)
    → usable_at later (key_of key_hash (load_key asked now st).1.api_keys)
      ≡ usable_at later (key_of key_hash st.api_keys)
unfolding load_key
load_key-keys asked key_hash now later st = elim (Option-cases (key_of asked st.api_keys)) [
  | inl e ↦ ground (arith, e)
  | inr (k, e) ↦ ground (arith, e, usable_at-touch_key k.id key_hash now later st.api_keys)
]

load_key-lookup :
    (asked key_hash : String) (now : ℕ) (st : AuthState) (c : CachedKey)
    → lookup key_hash (load_key asked now st).1.api_key_cache ≡ some c
    → (lookup key_hash st.api_key_cache ≡ some c)
      ⊎ ((asked ≡ key_hash) × (c.auth ≡ (load_key asked now st).0))
unfolding load_key
load_key-lookup asked key_hash now st c found = elim (Option-cases (key_of asked st.api_keys)) [
  | inl e ↦ ground (
    arith,
    e,
    found,
    eq_iff asked key_hash,
    lookup-insert asked key_hash (record { valid_until = now + api_key_cache_ms; auth = none })
        st.api_key_cache,
  )
  | inr (k, e) ↦ ground (
    arith,
    e,
    found,
    eq_iff asked key_hash,
    lookup-insert asked key_hash (record { valid_until = now + api_key_cache_ms; auth = none })
        st.api_key_cache,
    lookup-insert asked key_hash
        (record { valid_until = now + api_key_cache_ms; auth = some (key_payload k) })
        st.api_key_cache,
  )
]

load_key-none :
    (key_hash : String) (now : ℕ) (st : AuthState)
    → IsUnusable key_hash st.api_keys
    → (load_key key_hash now st).0 ≡ none
unfolding load_key
load_key-none key_hash now st closed = elim (Option-cases (key_of key_hash st.api_keys)) [
  | inl e ↦ ground (arith, e)
  | inr (k, e) ↦ ground (arith, e, closed now)
]

load_key-Refused :
    (key_hash : String) (bound now : ℕ) (asked : String) (st : AuthState)
    → Refused key_hash bound st
    → Refused key_hash bound (load_key asked now st).1
load_key-Refused key_hash bound now asked st v = record {
  good = λ c found. elim (load_key-lookup asked key_hash now st c found) [
    | inl old ↦ v.good c old
    | inr (same, fresh) ↦ inl (
        fresh
        ∙ load_key-none asked now st (subst (λ x. IsUnusable x st.api_keys) (sym same) v.closed))
  ];
  closed = λ later. load_key-keys asked key_hash now later st ∙ v.closed later;
}

session-keys :
    (asked : String) (now : ℕ) (st : AuthState)
    → ((is_session_active asked now st).1.api_key_cache ≡ st.api_key_cache)
      × ((is_session_active asked now st).1.api_keys ≡ st.api_keys)
unfolding is_session_active
session-keys asked now st = (ground arith, ground arith)

session-Refused :
    (key_hash : String) (bound now : ℕ) (asked : String) (st : AuthState)
    → Refused key_hash bound st
    → Refused key_hash bound (is_session_active asked now st).1
session-Refused key_hash bound now asked st v = record {
  good = λ c found. v.good c (sym (ap (lookup key_hash) (session-keys asked now st).0) ∙ found);
  closed = subst (IsUnusable key_hash) (sym (session-keys asked now st).1) v.closed;
}

drop_session-Refused :
    (key_hash : String) (bound : ℕ) (sid : String) (st : AuthState)
    → Refused key_hash bound st
    → Refused key_hash bound (invalidate_session_cache sid st)
unfolding invalidate_session_cache
drop_session-Refused key_hash bound sid st v = record { good = v.good; closed = v.closed }

drop_key-Refused :
    (key_hash : String) (bound : ℕ) (asked : Option String) (st : AuthState)
    → Refused key_hash bound st
    → Refused key_hash bound (invalidate_api_key_cache asked st)
unfolding invalidate_api_key_cache lookup
drop_key-Refused key_hash bound none st v = record {
  good = λ c found. absurd (ground (arith, found));
  closed = v.closed;
}
drop_key-Refused key_hash bound (some asked) st v = record {
  good = λ c found. v.good c (ground (arith, found, lookup-erase asked key_hash st.api_key_cache));
  closed = ground (arith, v.closed);
}

-- A look-up that is under way and, if it found the key usable, lets it in up to a time at most.
unfoldable pub Harmless : String → ℕ → Flight → Type 0
Harmless key_hash bound (key_flight asked started auth) =
    asked ≡ key_hash → (auth ≡ none) ⊎ (started + api_key_cache_ms ≤ bound)
Harmless key_hash bound (session_flight sid started is_ok) = Unit

-- One that did not find the key usable.
unfoldable pub Unseen : String → Flight → Type 0
Unseen key_hash (key_flight asked started auth) = asked ≡ key_hash → auth ≡ none
Unseen key_hash (session_flight sid started is_ok) = Unit

Unseen-Harmless : (key_hash : String) (f : Flight) → Unseen key_hash f → Harmless key_hash 0 f
unfolding Unseen Harmless
Unseen-Harmless key_hash (key_flight asked started auth) u = λ e. inl (u e)
Unseen-Harmless key_hash (session_flight sid started is_ok) u = tt

began-Harmless :
    (key_hash : String) (now : ℕ) (f : Flight)
    → began f ≤ now
    → Harmless key_hash (now + api_key_cache_ms) f
unfolding Harmless
began-Harmless key_hash now (key_flight asked started auth) le = λ e. inr (omega (arith, le))
began-Harmless key_hash now (session_flight sid started is_ok) le = tt

remember-GoodKeyUntil :
    (key_hash asked : String) (bound started : ℕ) (auth : Option AuthPayload) (st : AuthState)
    → (asked ≡ key_hash → (auth ≡ none) ⊎ (started + api_key_cache_ms ≤ bound))
    → GoodKeyUntil key_hash bound st
    → GoodKeyUntil key_hash bound (remember_key asked started auth st)
remember-GoodKeyUntil key_hash asked bound started auth st fits good c found =
    let entry : CachedKey = record { valid_until = started + api_key_cache_ms; auth = auth } in
    ground (
      arith,
      found,
      lookup-insert asked key_hash entry st.api_key_cache,
      eq_iff asked key_hash,
      fits,
      good c,
    )

settle_flight-Refused :
    (key_hash : String) (bound : ℕ) (f : Flight) (st : AuthState)
    → Harmless key_hash bound f
    → Refused key_hash bound st
    → Refused key_hash bound (settle_flight f st)
unfolding settle_flight Harmless
settle_flight-Refused key_hash bound (key_flight asked started auth) st h v = record {
  good = remember-GoodKeyUntil key_hash asked bound started auth st h v.good;
  closed = v.closed;
}
settle_flight-Refused key_hash bound (session_flight sid started is_ok) st h v = record {
  good = v.good;
  closed = v.closed;
}

read_key-none :
    (key_hash : String) (now : ℕ) (st : AuthState)
    → IsUnusable key_hash st.api_keys
    → read_key key_hash now st ≡ none
read_key-none key_hash now st closed = elim (Option-cases (key_of key_hash st.api_keys)) [
  | inl e ↦ ground (arith, e)
  | inr (k, e) ↦ ground (arith, e, closed now)
]

module _ (t : Tokens) (cfg : ServerConfig) (key_hash : String) (bound : ℕ) where
  Run-Refused :
      {t0 : ℕ} {st0 : AuthState} {fs0 : List Flight} {t1 : ℕ} {st1 : AuthState} {fs1 : List Flight}
      → Run t cfg (λ rows keys. IsUnusable key_hash keys) t0 st0 fs0 t1 st1 fs1
      → Refused key_hash bound st0
      → All (Harmless key_hash bound) fs0
      → Refused key_hash bound st1 × All (Harmless key_hash bound) fs1
  unfolding Harmless
  Run-Refused here v h = (v, h)
  Run-Refused (request r now {st = st} run le) v h =
      let (w, k) = Run-Refused run v h in
      (
        resolve_request_auth-keeps t now (Refused key_hash bound)
            (λ h st' w. load_key-Refused key_hash bound now h st' w)
            (λ asked st' w. session-Refused key_hash bound now asked st' w) cfg r st w,
        k,
      )
  Run-Refused (reads_session asked started now run le begun) v h =
      let (w, k) = Run-Refused run v h in (w, (tt, k))
  Run-Refused (reads_key asked started now {st = st} run le begun) v h =
      let (w, k) = Run-Refused run v h in
      (
        w,
        (
          λ e. inl (
              subst (λ x. read_key x now st ≡ none) (sym e)
                (read_key-none key_hash now st w.closed)),
          k,
        ),
      )
  Run-Refused (settles f earlier later {st = st} run) v h =
      let (w, k) = Run-Refused run v h in
      let (p, rest) = All-middle (Harmless key_hash bound) f earlier later k in
      (settle_flight-Refused key_hash bound f st p w, rest)
  Run-Refused (write rows keys closed run) v h =
      let (w, k) = Run-Refused run v h in (record { good = w.good; closed = closed }, k)
  Run-Refused (invalidate sid {st = st} run) v h =
      let (w, k) = Run-Refused run v h in (drop_session-Refused key_hash bound sid st w, k)
  Run-Refused (invalidate_key asked {st = st} run) v h =
      let (w, k) = Run-Refused run v h in (drop_key-Refused key_hash bound asked st w, k)

auth_from_api_key-none :
    (t : Tokens) (raw part : Text) (bound now : ℕ) (st : AuthState)
    → Refused (t.hash_auth_part part) bound st
    → bound ≤ now
    → parse_api_key_header raw ≡ ok (some part)
    → (auth_from_api_key t raw now st).0 ≡ ok none
unfolding auth_from_api_key
auth_from_api_key-none t raw part bound now st v late parsed =
    let fresh = load_key-none (t.hash_auth_part part) now st v.closed in
    elim (Option-cases (lookup (t.hash_auth_part part) st.api_key_cache)) [
      | inl e ↦ ground (arith, parsed, e, fresh)
      | inr (c, e) ↦ ground (arith, parsed, e, fresh, v.good c e, late)
    ]

header_refused :
    (t : Tokens) (cfg : ServerConfig) (raw part : Text) (now : ℕ) (st : AuthState)
    → parse_api_key_header raw ≡ ok (some part)
    → (auth_from_api_key t raw now st).0 ≡ ok none
    → (auth_from_header t cfg raw now st).0 ≡ ok none
unfolding auth_from_header parse_api_key_header
header_refused t cfg raw part now st parsed refused =
    elim (Bool-cases (starts_with api_key_prefix raw)) [
      | inl e ↦ ground (arith, e, refused)
      | inr e ↦ absurd (ground (arith, e, parsed))
    ]

by_header :
    (t : Tokens) (cfg : ServerConfig) (r : Request) (raw : Text) (now : ℕ) (st : AuthState)
    → r.authorization ≡ none
    → r.x_api_key ≡ some raw
    → (auth_from_header t cfg raw now st).0 ≡ ok none
    → (resolve_request_auth t cfg r now st).0 ≡ ok none
unfolding resolve_request_auth extract_token
by_header t cfg r [] now st no_bearer brings refused = ground (arith, no_bearer, brings)
by_header t cfg r (c ∷ cs) now st no_bearer brings refused =
    ground (arith, no_bearer, brings, refused)

after_bound :
    (t : Tokens) (cfg : ServerConfig) (bound : ℕ) {t0 t1 : ℕ} {st0 st1 : AuthState}
    {fs0 fs1 : List Flight} (r : Request) (raw part : Text) (now : ℕ)
    → Refused (t.hash_auth_part part) bound st0
    → All (Harmless (t.hash_auth_part part) bound) fs0
    → Run t cfg (λ rows keys. IsUnusable (t.hash_auth_part part) keys) t0 st0 fs0 t1 st1 fs1
    → bound ≤ now
    → r.authorization ≡ none
    → r.x_api_key ≡ some raw
    → parse_api_key_header raw ≡ ok (some part)
    → (resolve_request_auth t cfg r now st1).0 ≡ ok none
after_bound t cfg bound {st1 = st1} r raw part now v h run late no_bearer brings parsed =
    let (w, k) = Run-Refused t cfg (t.hash_auth_part part) bound run v h in
    let refused = auth_from_api_key-none t raw part bound now st1 w late parsed in
    by_header t cfg r raw now st1 no_bearer brings
      (header_refused t cfg raw part now st1 parsed refused)

-- If no API key of a hash can be used from a time on, and then the cache holds no answer for it for longer
-- than a minute and no look-up that is under way began later, then from a minute on a request that brings
-- the key, and no bearer token, is let in as no one, whatever requests were made meanwhile, as long as
-- the table keeps the key unusable.
pub resolve_request_auth-unusable :
    (t : Tokens) (cfg : ServerConfig) {t0 t1 : ℕ} {st0 st1 : AuthState} {fs0 fs1 : List Flight}
    (r : Request) (raw part : Text) (now : ℕ)
    → GoodKeyUntil (t.hash_auth_part part) (t0 + api_key_cache_ms) st0
    → All (λ f. began f ≤ t0) fs0
    → IsUnusable (t.hash_auth_part part) st0.api_keys
    → Run t cfg (λ rows keys. IsUnusable (t.hash_auth_part part) keys) t0 st0 fs0 t1 st1 fs1
    → t0 + api_key_cache_ms ≤ now
    → r.authorization ≡ none
    → r.x_api_key ≡ some raw
    → parse_api_key_header raw ≡ ok (some part)
    → (resolve_request_auth t cfg r now st1).0 ≡ ok none
resolve_request_auth-unusable t cfg {t0} {fs0 = fs0} r raw part now good begun closed run late
      no_bearer brings parsed =
    after_bound t cfg (t0 + api_key_cache_ms) r raw part now
      (record { good = good; closed = closed })
      (All-mono (λ f. began f ≤ t0) (Harmless (t.hash_auth_part part) (t0 + api_key_cache_ms))
        (λ f le. began-Harmless (t.hash_auth_part part) t0 f le) fs0 begun)
      run late no_bearer brings parsed

-- The same at once, where the cache has no answer for the key and no look-up that is under way found it
-- usable.
pub resolve_request_auth-shut :
    (t : Tokens) (cfg : ServerConfig) {t0 t1 : ℕ} {st0 st1 : AuthState} {fs0 fs1 : List Flight}
    (r : Request) (raw part : Text) (now : ℕ)
    → GoodKeyUntil (t.hash_auth_part part) 0 st0
    → All (Unseen (t.hash_auth_part part)) fs0
    → IsUnusable (t.hash_auth_part part) st0.api_keys
    → Run t cfg (λ rows keys. IsUnusable (t.hash_auth_part part) keys) t0 st0 fs0 t1 st1 fs1
    → r.authorization ≡ none
    → r.x_api_key ≡ some raw
    → parse_api_key_header raw ≡ ok (some part)
    → (resolve_request_auth t cfg r now st1).0 ≡ ok none
resolve_request_auth-shut t cfg {fs0 = fs0} r raw part now good unseen closed run no_bearer brings
      parsed =
    after_bound t cfg 0 r raw part now (record { good = good; closed = closed })
      (All-mono (Unseen (t.hash_auth_part part)) (Harmless (t.hash_auth_part part) 0)
        (Unseen-Harmless (t.hash_auth_part part)) fs0 unseen)
      run (omega arith) no_bearer brings parsed

-- The answer for a key whose row gives an account, or none.
abbrev pub key_answer : Text → Option AuthPayload → Option ResolvedAuth
key_answer part none = none
key_answer part (some p) =
    some (record { payload = p; via = apikey; api_key_auth_part = some part })

header_loaded :
    (t : Tokens) (cfg : ServerConfig) (raw part : Text) (now : ℕ) (st : AuthState)
    → starts_with api_key_prefix raw ≡ true
    → parse_api_key_header raw ≡ ok (some part)
    → lookup (t.hash_auth_part part) st.api_key_cache ≡ none
    → auth_from_header t cfg raw now st ≡ (
      ok (key_answer part (load_key (t.hash_auth_part part) now st).0),
      (load_key (t.hash_auth_part part) now st).1,
    )
unfolding auth_from_header auth_from_api_key
header_loaded t cfg raw part now st starts parsed fresh =
    elim (Option-cases (load_key (t.hash_auth_part part) now st).0) [
      | inl e ↦ ground (arith, starts, parsed, fresh, e)
      | inr (p, e) ↦ ground (arith, starts, parsed, fresh, e)
    ]

-- A request that brings an API key, and no bearer token, is answered by the row of the key, where the cache
-- has no answer for it.
pub resolve_request_auth-load_key :
    (t : Tokens) (cfg : ServerConfig) (c : ℕ) (cs part : Text) (now : ℕ) (st : AuthState)
    → starts_with api_key_prefix (c ∷ cs) ≡ true
    → parse_api_key_header (c ∷ cs) ≡ ok (some part)
    → lookup (t.hash_auth_part part) st.api_key_cache ≡ none
    → resolve_request_auth t cfg (record { authorization = none; x_api_key = some (c ∷ cs) }) now st
      ≡ (
        ok (key_answer part (load_key (t.hash_auth_part part) now st).0),
        (load_key (t.hash_auth_part part) now st).1,
      )
unfolding resolve_request_auth extract_token
resolve_request_auth-load_key t cfg c cs part now st starts parsed fresh =
    header_loaded t cfg (c ∷ cs) part now st starts parsed fresh
