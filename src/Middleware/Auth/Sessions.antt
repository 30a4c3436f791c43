-- ===== src/Middleware/Auth/Sessions.antt =====
-- apps/api/src/middleware/auth.ts: how long a revoked session is still let in.
use ddrive.Prelude.{
  ℕ, ◌+◌, ◌≤◌, List, some, String, ◌≡◌, ap, sym, ◌∙◌, arith, eq_iff, ◌≢◌, All, All-mono,
}
use ddrive.Prelude.Tables.{lookup}
use ddrive.Storage.Rows.{ok, err}
use ddrive.Middleware.Auth.{
  Text, AuthPayload, AuthState, Tokens, ServerConfig, session_cache_ms, verify_session_token,
  invalidate_session_cache,
}
use ddrive.Middleware.Auth.Requests.{
  Flight, began, Run, Run-time, All-middle, here, request, reads_session, reads_key, settles, write,
  invalidate, invalidate_key, resolve_request_auth-keeps,
}
use ddrive.Middleware.Auth.Caching.{
  Bounded, GoodUntil, Harmless, IsClosed, Refused, Unseen, Unseen-Harmless, began-Harmless,
  begun_by, check-Bounded, check-Refused, drop_key-Refused, drop_key-sessions, erase-GoodUntil,
  invalidate-GoodUntil, invalidate-Refused, is_session_active-Refused, load_key-Bounded,
  load_key-Refused, read-Harmless, settle_flight-GoodUntil, settle_flight-Refused,
}

module _ (t : Tokens) (cfg : ServerConfig) where
  Run-Refused :
      (sid : String) (bound : ℕ) {t0 : ℕ} {st0 : AuthState} {fs0 : List Flight} {t1 : ℕ}
      {st1 : AuthState} {fs1 : List Flight}
      → Run t cfg (λ rows keys. IsClosed t0 sid rows) t0 st0 fs0 t1 st1 fs1
      → Refused t0 sid bound st0
      → All (Harmless sid bound) fs0
      → Refused t0 sid bound st1 × All (Harmless sid bound) fs1
  unfolding Harmless
  Run-Refused sid bound here v h = (v, h)
  Run-Refused sid bound {t0} (request r now {st = st} run le) v h =
      let (w, k) = Run-Refused sid bound run v h in
      let late = Run-time t cfg (λ rows keys. IsClosed t0 sid rows) run in
      (
        resolve_request_auth-keeps t now (Refused t0 sid bound)
            (λ h st' w. load_key-Refused t0 sid bound now h st' w)
            (λ asked st' w. check-Refused t0 sid bound now asked st' (omega (arith, late, le)) w)
            cfg r st w,
        k,
      )
  Run-Refused sid bound {t0} (reads_session asked started now {st = st} run le begun) v h =
      let (w, k) = Run-Refused sid bound run v h in
      let late = Run-time t cfg (λ rows keys. IsClosed t0 sid rows) run in
      (w, (read-Harmless t0 sid asked bound started now st w (omega (arith, late, le)), k))
  Run-Refused sid bound (reads_key key_hash started now run le begun) v h =
      let (w, k) = Run-Refused sid bound run v h in (w, (tt, k))
  Run-Refused sid bound {t0} (settles f earlier later {st = st} run) v h =
      let (w, k) = Run-Refused sid bound run v h in
      let (p, rest) = All-middle (Harmless sid bound) f earlier later k in
      (settle_flight-Refused t0 sid bound f st p w, rest)
  Run-Refused sid bound (write rows keys closed run) v h =
      let (w, k) = Run-Refused sid bound run v h in (record { good = w.good; closed = closed }, k)
  Run-Refused sid bound {t0} (invalidate asked {st = st} run) v h =
      let (w, k) = Run-Refused sid bound run v h in (invalidate-Refused t0 sid asked bound st w, k)
  Run-Refused sid bound {t0} (invalidate_key key {st = st} run) v h =
      let (w, k) = Run-Refused sid bound run v h in (drop_key-Refused t0 sid bound key st w, k)

  -- From a state whose cache holds no answer for longer than a minute from then on, and where no look-up
  -- under way began later, such as that of a process that has just started, any requests at later and
  -- later times, with any writes to the tables and any invalidations between them, lead to such a state
  -- again.
  pub Run-Bounded :
      {t0 : ℕ} {st0 : AuthState} {fs0 : List Flight} {t1 : ℕ} {st1 : AuthState} {fs1 : List Flight}
      → Run t cfg (λ rows keys. Unit) t0 st0 fs0 t1 st1 fs1
      → Bounded t0 st0
      → All (λ f. began f ≤ t0) fs0
      → Bounded t1 st1 × All (λ f. began f ≤ t1) fs1
  Run-Bounded here b h = (b, h)
  Run-Bounded (request r now {before} {st} {fs} run le) b h =
      let (w, k) = Run-Bounded run b h in
      (
        resolve_request_auth-keeps t now (Bounded now) (λ h st' w. load_key-Bounded now h st' w)
            (λ asked st' w. check-Bounded now asked st' w) cfg r st
            (λ sid c found. ground (arith, w sid c found, le)),
        begun_by fs before now k le,
      )
  Run-Bounded (reads_session asked started now {before} {st} {fs} run le begun) b h =
      let (w, k) = Run-Bounded run b h in
      (λ sid c found. ground (arith, w sid c found, le), (begun, begun_by fs before now k le))
  Run-Bounded (reads_key key_hash started now {before} {st} {fs} run le begun) b h =
      let (w, k) = Run-Bounded run b h in
      (λ sid c found. ground (arith, w sid c found, le), (begun, begun_by fs before now k le))
  Run-Bounded (settles f earlier later {now} {st} run) b h =
      let (w, k) = Run-Bounded run b h in
      let (p, rest) = All-middle (λ f. began f ≤ now) f earlier later k in
      (
        λ sid.
            settle_flight-GoodUntil sid (now + session_cache_ms) f st (began-Harmless sid now f p)
              (w sid),
        rest,
      )
  Run-Bounded (write rows keys allowed run) b h = let (w, k) = Run-Bounded run b h in (w, k)
  Run-Bounded (invalidate asked {now} {st} run) b h =
      let (w, k) = Run-Bounded run b h in
      (λ sid. invalidate-GoodUntil sid asked (now + session_cache_ms) st (w sid), k)
  Run-Bounded (invalidate_key key {st = st} run) b h =
      let (w, k) = Run-Bounded run b h in
      (λ sid c found. w sid c (sym (ap (lookup sid) (drop_key-sessions key st).0) ∙ found), k)

  -- If no session of an identifier, which is not empty, is open in the table at a time, since its
  -- row is missing, revoked or expired, and then the cache holds no answer for longer than a minute
  -- and no look-up that is under way began later, then from a minute on every valid token that
  -- names the session is refused, whatever requests were made meanwhile and in whatever order their
  -- look-ups are answered and written to the cache, as long as the table does not hold a row that
  -- would be open at that time.
  pub verify_session_token-closed :
      (sid : String) {t0 t1 : ℕ} {st0 st1 : AuthState} {fs0 fs1 : List Flight} (token : Text)
      (payload : AuthPayload) (now : ℕ)
      → Bounded t0 st0
      → All (λ f. began f ≤ t0) fs0
      → IsClosed t0 sid st0.sessions
      → Run t cfg (λ rows keys. IsClosed t0 sid rows) t0 st0 fs0 t1 st1 fs1
      → t0 + session_cache_ms ≤ now
      → t.verify_token token now ≡ ok payload
      → payload.sid ≡ some sid
      → sid ≢ ""
      → (verify_session_token t token now st1).0 ≡ err "Session revoked or expired"
  unfolding verify_session_token
  verify_session_token-closed sid {t0} {t1} {st0} {st1} {fs0} token payload now b begun closed run
        late valid named proper =
      let v : Refused t0 sid (t0 + session_cache_ms) st0 = record {
        good = b sid;
        closed = closed;
      } in
      let h =
        All-mono (λ f. began f ≤ t0) (Harmless sid (t0 + session_cache_ms))
          (λ f le. began-Harmless sid t0 f le) fs0 begun in
      let (w, k) = Run-Refused sid (t0 + session_cache_ms) run v h in
      let no =
        is_session_active-Refused t0 sid (t0 + session_cache_ms) now st1 w (omega (arith, late))
          late in
      ground (arith, valid, named, no, eq_iff sid "", proper)

  -- The same at once, from a state where neither the table nor the cache lets the session in, and no
  -- look-up that is under way found it open.
  pub verify_session_token-shut :
      (sid : String) {t0 t1 : ℕ} {st0 st1 : AuthState} {fs0 fs1 : List Flight} (token : Text)
      (payload : AuthPayload) (now : ℕ)
      → GoodUntil sid 0 st0
      → All (Unseen sid) fs0
      → IsClosed t0 sid st0.sessions
      → Run t cfg (λ rows keys. IsClosed t0 sid rows) t0 st0 fs0 t1 st1 fs1
      → t1 ≤ now
      → t.verify_token token now ≡ ok payload
      → payload.sid ≡ some sid
      → sid ≢ ""
      → (verify_session_token t token now st1).0 ≡ err "Session revoked or expired"
  unfolding verify_session_token
  verify_session_token-shut sid {t0} {t1} {st0} {st1} {fs0} token payload now good unseen closed run
        late valid named proper =
      let v : Refused t0 sid 0 st0 = record { good = good; closed = closed } in
      let h = All-mono (Unseen sid) (Harmless sid 0) (Unseen-Harmless sid) fs0 unseen in
      let (w, k) = Run-Refused sid 0 run v h in
      let after = Run-time t cfg (λ rows keys. IsClosed t0 sid rows) run in
      let no =
        is_session_active-Refused t0 sid 0 now st1 w (omega (arith, after, late)) (omega arith) in
      ground (arith, valid, named, no, eq_iff sid "", proper)

  -- If no session of an identifier, which is not empty, is open in the table when its cached answer is
  -- dropped, and no look-up that is then under way found it open, then from then on every valid token that
  -- names the session is refused at once, whatever requests were made meanwhile, as long as the table
  -- does not hold a row that would be open at that time.
  pub verify_session_token-invalidated :
      (sid : String) {t0 t1 : ℕ} (st0 : AuthState) {st1 : AuthState} {fs0 fs1 : List Flight}
      (token : Text) (payload : AuthPayload) (now : ℕ)
      → All (Unseen sid) fs0
      → IsClosed t0 sid st0.sessions
      → Run t cfg
          (λ rows keys. IsClosed t0 sid rows)
          t0
          (invalidate_session_cache sid st0)
          fs0
          t1
          st1
          fs1
      → t1 ≤ now
      → t.verify_token token now ≡ ok payload
      → payload.sid ≡ some sid
      → sid ≢ ""
      → (verify_session_token t token now st1).0 ≡ err "Session revoked or expired"
  verify_session_token-invalidated sid {t0} st0 token payload now unseen closed run late valid named
        proper =
      verify_session_token-shut sid {t0 = t0} {st0 = invalidate_session_cache sid st0} token payload
        now (erase-GoodUntil sid st0) unseen (unfold invalidate_session_cache in closed) run late
        valid named proper
