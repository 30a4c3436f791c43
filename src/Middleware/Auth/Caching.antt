-- ===== src/Middleware/Auth/Caching.antt =====
-- apps/api/src/middleware/auth.ts: what the cache of sessions holds while a session is closed.
use ddrive.Prelude.{
  ℕ, ◌+◌, ◌≤◌, false, List, some, String, ◌≡◌, Option, none, refl, ap, sym, subst, ◌∙◌, ◌⊎◌, inl,
  inr, Option-cases, find, str_eq, arith, eq_iff, str_eq_refl, Bool, All, All-mono,
}
use ddrive.Prelude.Tables.{lookup, lookup-insert, lookup-erase}
use ddrive.Middleware.Auth.{
  DeviceSession, AuthState, CachedSession, session_cache_ms, is_session_active, is_open_session,
  invalidate_session_cache, invalidate_api_key_cache, load_key, read_session, remember_session,
}
use ddrive.Middleware.Auth.Requests.{Flight, session_flight, key_flight, settle_flight, began}

-- No answer that the cache holds for a session as a good one lasts beyond a time.
abbrev pub GoodUntil : String → ℕ → AuthState → Type 0
GoodUntil sid bound st =
    (c : CachedSession)
    → lookup sid st.session_cache ≡ some c
    → (c.is_ok ≡ false) ⊎ (c.valid_until ≤ bound)

-- No row of the identifier is open at a time: it is missing, revoked or expired.
abbrev pub IsClosed : ℕ → String → List DeviceSession → Type 0
IsClosed t0 sid rows =
    is_open_session t0 (find (λ (s : DeviceSession). str_eq s.id sid) rows) ≡ false

-- Nor is it later.
IsClosed-later :
    (t0 now : ℕ) (sid : String) (rows : List DeviceSession)
    → IsClosed t0 sid rows
    → t0 ≤ now
    → IsClosed now sid rows
IsClosed-later t0 now sid rows closed le =
    elim (Option-cases (find (λ (s : DeviceSession). str_eq s.id sid) rows)) [
      | inl e ↦ ground (arith, e)
      | inr (s, e) ↦ ground (arith, e, closed, le)
    ]

-- A look-up that is under way and, if it found the session open, lets it in up to a time at most.
unfoldable pub Harmless : String → ℕ → Flight → Type 0
Harmless sid bound (session_flight asked started is_ok) =
    asked ≡ sid → (is_ok ≡ false) ⊎ (started + session_cache_ms ≤ bound)
Harmless sid bound (key_flight key_hash started auth) = Unit

-- One that did not find the session open.
unfoldable pub Unseen : String → Flight → Type 0
Unseen sid (session_flight asked started is_ok) = asked ≡ sid → is_ok ≡ false
Unseen sid (key_flight key_hash started auth) = Unit

pub Unseen-Harmless : (sid : String) (f : Flight) → Unseen sid f → Harmless sid 0 f
unfolding Unseen Harmless
Unseen-Harmless sid (session_flight asked started is_ok) u = λ e. inl (u e)
Unseen-Harmless sid (key_flight key_hash started auth) u = tt

pub began-Harmless :
    (sid : String) (now : ℕ) (f : Flight) → began f ≤ now → Harmless sid (now + session_cache_ms) f
unfolding Harmless
began-Harmless sid now (session_flight asked started is_ok) le = λ e. inr (omega (arith, le))
began-Harmless sid now (key_flight key_hash started auth) le = tt

abbrev pub Bounded : ℕ → AuthState → Type 0
Bounded now st = (sid : String) → GoodUntil sid (now + session_cache_ms) st

abbrev fresh_entry : String → ℕ → AuthState → CachedSession
fresh_entry sid now st = record {
  valid_until = now + session_cache_ms;
  is_ok = is_open_session now (find (λ (s : DeviceSession). str_eq s.id sid) st.sessions);
}

lookup-check :
    (asked sid : String) (now : ℕ) (st : AuthState)
    → (lookup sid (is_session_active asked now st).1.session_cache ≡ lookup sid st.session_cache)
      ⊎ ((asked ≡ sid)
          × (lookup sid (is_session_active asked now st).1.session_cache
              ≡ some (fresh_entry asked now st)))
unfolding is_session_active
lookup-check asked sid now st =
    ground
      (arith, lookup-insert asked sid (fresh_entry asked now st) st.session_cache, eq_iff asked sid)

sessions-check :
    (asked : String) (now : ℕ) (st : AuthState)
    → (is_session_active asked now st).1.sessions ≡ st.sessions
unfolding is_session_active
sessions-check asked now st = ground arith

pub check-Bounded :
    (now : ℕ) (asked : String) (st : AuthState)
    → Bounded now st
    → Bounded now (is_session_active asked now st).1
check-Bounded now asked st b sid c found = elim (lookup-check asked sid now st) [
  | inl same ↦ b sid c (sym same ∙ found)
  | inr (e, fresh) ↦ inr (ground (arith, found, fresh))
]

-- Under an invariant of what the cache and the table say of a session.
pub record Refused (t0 : ℕ) (sid : String) (bound : ℕ) (st : AuthState) : Type 0 where
  pub good : GoodUntil sid bound st
  pub closed : IsClosed t0 sid st.sessions

pub check-Refused :
    (t0 : ℕ) (sid : String) (bound now : ℕ) (asked : String) (st : AuthState)
    → t0 ≤ now
    → Refused t0 sid bound st
    → Refused t0 sid bound (is_session_active asked now st).1
check-Refused t0 sid bound now asked st le v = record {
  good = λ c found. elim (lookup-check asked sid now st) [
    | inl same ↦ v.good c (sym same ∙ found)
    | inr (e, fresh) ↦ inl (
        ground (
          arith,
          found,
          fresh,
          subst
              (λ x.
                is_open_session now (find (λ (s : DeviceSession). str_eq s.id x) st.sessions)
                ≡ false)
              (sym e) (IsClosed-later t0 now sid st.sessions v.closed le),
        ))
  ];
  closed = subst (IsClosed t0 sid) (sym (sessions-check asked now st)) v.closed;
}

pub invalidate-GoodUntil :
    (sid asked : String) (bound : ℕ) (st : AuthState)
    → GoodUntil sid bound st
    → GoodUntil sid bound (invalidate_session_cache asked st)
unfolding invalidate_session_cache
invalidate-GoodUntil sid asked bound st g c found =
    ground (arith, found, g c, lookup-erase asked sid st.session_cache)

pub invalidate-Refused :
    (t0 : ℕ) (sid asked : String) (bound : ℕ) (st : AuthState)
    → Refused t0 sid bound st
    → Refused t0 sid bound (invalidate_session_cache asked st)
unfolding invalidate_session_cache
invalidate-Refused t0 sid asked bound st v = record {
  good = invalidate-GoodUntil sid asked bound st v.good;
  closed = v.closed;
}

pub erase-GoodUntil :
    (sid : String) (st : AuthState) → GoodUntil sid 0 (invalidate_session_cache sid st)
unfolding invalidate_session_cache
erase-GoodUntil sid st c found =
    ground (arith, found, lookup-erase sid sid st.session_cache, str_eq_refl sid)

pub is_session_active-Refused :
    (t0 : ℕ) (sid : String) (bound now : ℕ) (st : AuthState)
    → Refused t0 sid bound st
    → t0 ≤ now
    → bound ≤ now
    → (is_session_active sid now st).0 ≡ false
unfolding is_session_active
is_session_active-Refused t0 sid bound now st v le late =
    let shut = IsClosed-later t0 now sid st.sessions v.closed le in
    elim (Option-cases (lookup sid st.session_cache)) [
      | inl e ↦ ground (arith, e, shut)
      | inr (c, e) ↦ ground (arith, e, shut, v.good c e, late)
    ]

load_key-session_cache :
    (key_hash : String) (now : ℕ) (st : AuthState)
    → ((load_key key_hash now st).1.session_cache ≡ st.session_cache)
      × ((load_key key_hash now st).1.sessions ≡ st.sessions)
unfolding load_key
load_key-session_cache key_hash now st = (ground arith, ground arith)

pub load_key-Bounded :
    (now : ℕ) (key_hash : String) (st : AuthState)
    → Bounded now st
    → Bounded now (load_key key_hash now st).1
load_key-Bounded now key_hash st b sid c found =
    b sid c (sym (ap (lookup sid) (load_key-session_cache key_hash now st).0) ∙ found)

pub load_key-Refused :
    (t0 : ℕ) (sid : String) (bound now : ℕ) (key_hash : String) (st : AuthState)
    → Refused t0 sid bound st
    → Refused t0 sid bound (load_key key_hash now st).1
load_key-Refused t0 sid bound now key_hash st v = record {
  good = λ c found.
      v.good c (sym (ap (lookup sid) (load_key-session_cache key_hash now st).0) ∙ found);
  closed = subst (IsClosed t0 sid) (sym (load_key-session_cache key_hash now st).1) v.closed;
}

pub drop_key-sessions :
    (key_hash : Option String) (st : AuthState)
    → ((invalidate_api_key_cache key_hash st).session_cache ≡ st.session_cache)
      × ((invalidate_api_key_cache key_hash st).sessions ≡ st.sessions)
unfolding invalidate_api_key_cache
drop_key-sessions none st = (refl, refl)
drop_key-sessions (some k) st = (ground arith, ground arith)

pub drop_key-Refused :
    (t0 : ℕ) (sid : String) (bound : ℕ) (key_hash : Option String) (st : AuthState)
    → Refused t0 sid bound st
    → Refused t0 sid bound (invalidate_api_key_cache key_hash st)
drop_key-Refused t0 sid bound key_hash st v = record {
  good = λ c found. v.good c (sym (ap (lookup sid) (drop_key-sessions key_hash st).0) ∙ found);
  closed = subst (IsClosed t0 sid) (sym (drop_key-sessions key_hash st).1) v.closed;
}

remember-GoodUntil :
    (sid asked : String) (bound started : ℕ) (is_ok : Bool) (st : AuthState)
    → (asked ≡ sid → (is_ok ≡ false) ⊎ (started + session_cache_ms ≤ bound))
    → GoodUntil sid bound st
    → GoodUntil sid bound (remember_session asked started is_ok st)
remember-GoodUntil sid asked bound started is_ok st fits good c found =
    let entry : CachedSession = record {
      valid_until = started + session_cache_ms;
      is_ok = is_ok;
    } in
    ground
      (arith, found, lookup-insert asked sid entry st.session_cache, eq_iff asked sid, fits, good c)

pub settle_flight-GoodUntil :
    (sid : String) (bound : ℕ) (f : Flight) (st : AuthState)
    → Harmless sid bound f
    → GoodUntil sid bound st
    → GoodUntil sid bound (settle_flight f st)
unfolding settle_flight Harmless
settle_flight-GoodUntil sid bound (session_flight asked started is_ok) st h good =
    remember-GoodUntil sid asked bound started is_ok st h good
settle_flight-GoodUntil sid bound (key_flight key_hash started auth) st h good = good

settle_flight-sessions : (f : Flight) (st : AuthState) → (settle_flight f st).sessions ≡ st.sessions
unfolding settle_flight
settle_flight-sessions (session_flight asked started is_ok) st = refl
settle_flight-sessions (key_flight key_hash started auth) st = refl

pub settle_flight-Refused :
    (t0 : ℕ) (sid : String) (bound : ℕ) (f : Flight) (st : AuthState)
    → Harmless sid bound f
    → Refused t0 sid bound st
    → Refused t0 sid bound (settle_flight f st)
settle_flight-Refused t0 sid bound f st h v = record {
  good = settle_flight-GoodUntil sid bound f st h v.good;
  closed = subst (IsClosed t0 sid) (sym (settle_flight-sessions f st)) v.closed;
}

-- A look-up that is answered while the session is closed does not find it open.
pub read-Harmless :
    (t0 : ℕ) (sid asked : String) (bound started now : ℕ) (st : AuthState)
    → Refused t0 sid bound st
    → t0 ≤ now
    → Harmless sid bound (session_flight asked started (read_session asked now st))
unfolding Harmless
read-Harmless t0 sid asked bound started now st v le = λ e. inl (
    subst (λ x. read_session x now st ≡ false) (sym e)
      (IsClosed-later t0 now sid st.sessions v.closed le))

pub begun_by :
    (fs : List Flight) (before now : ℕ)
    → All (λ f. began f ≤ before) fs
    → before ≤ now
    → All (λ f. began f ≤ now) fs
begun_by fs before now h le =
    All-mono (λ f. began f ≤ before) (λ f. began f ≤ now) (λ f k. omega (arith, k, le)) fs h
