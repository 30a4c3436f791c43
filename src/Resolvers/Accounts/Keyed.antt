-- ===== src/Resolvers/Accounts/Keyed.antt =====
-- apps/api/src/resolvers/auth.ts and middleware/auth.ts: an API key from its creation to its revocation.
use ddrive.Prelude.{
  ℕ, ◌≡◌, refl, ap, sym, subst, ◌∙◌, All, inl, inr, Bool, true, false, ◌||◌, List, [], ◌∷◌, ◌++◌,
  Option, none, some, String, str_eq, find, Option-cases, Bool-cases, arith, str_eq_refl, eq_iff,
  any, ltb, length, ◌==◌,
}
use ddrive.Prelude.Tables.{lookup, lookup-erase}
use ddrive.Prelude.Texts.{codes, starts_with, strip_prefix}
use ddrive.Database.Keys.{find-passes}
use ddrive.Database.Updates.{find-append, find-none_stronger, find-update_through}
use ddrive.Storage.Rows.{ok, Result-cases}
use ddrive.Middleware.Auth.{
  Text, ApiKey, AuthState, ServerConfig, Request, api_key_prefix, is_usable_key, key_payload,
  parse_api_key_header, touch_key, load_key, resolve_request_auth, invalidate_api_key_cache,
}
use ddrive.Middleware.Auth.Requests.{Flight, Run}
use ddrive.Middleware.Auth.Keys.{
  key_answer, resolve_request_auth-load_key, key_of, GoodKeyUntil, IsUnusable, Unseen,
  resolve_request_auth-shut,
}
use ddrive.Resolvers.Accounts.{
  Accounts, User, Outside, is_empty_text, trim, find_user, add_row, add_row-ok,
}
use ddrive.Resolvers.Accounts.Keys.{
  is_past, date_of, new_api_key, add_api_key, create_api_key, owned_key, revoke_api_key,
}

parsed-key :
    (c : ℕ) (part : Text)
    → any (λ x. x == b'.') (c ∷ part) ≡ false
    → parse_api_key_header (api_key_prefix ++ c ∷ part) ≡ ok (some (c ∷ part))
unfolding parse_api_key_header starts_with strip_prefix codes
parsed-key c part plain = ground (arith, plain)

starts-key : (part : Text) → starts_with api_key_prefix (api_key_prefix ++ part) ≡ true
unfolding starts_with strip_prefix codes
starts-key part = ground arith

module _ (o : Outside) (cfg : ServerConfig) where
  resolved_key :
      (c : ℕ) (part : Text) (now : ℕ) (st : AuthState)
      → any (λ x. x == b'.') (c ∷ part) ≡ false
      → lookup (o.tokens.hash_auth_part (c ∷ part)) st.api_key_cache ≡ none
      → resolve_request_auth o.tokens cfg
          (record { authorization = none; x_api_key = some (api_key_prefix ++ c ∷ part) })
          now
          st
        ≡ (
          ok (key_answer (c ∷ part) (load_key (o.tokens.hash_auth_part (c ∷ part)) now st).0),
          (load_key (o.tokens.hash_auth_part (c ∷ part)) now st).1,
        )
  unfolding codes
  resolved_key c part now st plain fresh =
      resolve_request_auth-load_key o.tokens cfg b'd' (codes "dv4_" ++ c ∷ part) (c ∷ part) now st
        (starts-key (c ∷ part)) (parsed-key c part plain) fresh

  -- What the creation of a key leaves.
  record Created (user_id id : String) (part : Text) (now : ℕ) (w : Accounts) (key : ApiKey)
      (w' : Accounts) : Type 0 where
    same_user : key.user_id ≡ user_id
    same_id : key.id ≡ id
    key_hash : key.key_hash ≡ o.tokens.hash_auth_part part
    found :
        find (λ (k : ApiKey). str_eq k.key_hash (o.tokens.hash_auth_part part)) w'.auth.api_keys
        ≡ some key
    owned : find (owned_key user_id id) w'.auth.api_keys ≡ some key
    cache : w'.auth.api_key_cache ≡ w.auth.api_key_cache

  add_api_key-Created :
      (user_id : String) (name part : Text) (expires_at : Option ℕ) (id : String) (now : ℕ)
      (w : Accounts) (key : ApiKey)
      → (add_api_key o user_id name part expires_at id now w).0 ≡ ok key
      → Created user_id id part now w key (add_api_key o user_id name part expires_at id now w).1
  unfolding add_api_key find
  add_api_key-Created user_id name part expires_at id now w key e =
      elim (Option-cases (find_user user_id w.users)) [
        | inl t ↦ absurd (ground (arith, e, t))
        | inr (u, t) ↦
            let new = new_api_key o u name part expires_at id now in
            let taken = λ (k : ApiKey). str_eq k.key_hash new.key_hash || str_eq k.id id in
            let by_id = find-passes (λ (r : User). str_eq r.id user_id) w.users u t in
            elim (Result-cases (add_row taken new w.auth.api_keys)) [
              | inr (x, k) ↦ absurd (ground (arith, e, t, k))
              | inl (rows, k) ↦
                  let (free, same) = add_row-ok taken new w.auth.api_keys rows k in
                  let is_new : key ≡ new = ground (arith, e, t, k) in
                  let no_hash =
                    find-none_stronger taken (λ r. str_eq r.key_hash new.key_hash) w.auth.api_keys
                      (λ r h. ground (arith, h)) free in
                  let no_id =
                    find-none_stronger taken (owned_key user_id id) w.auth.api_keys
                      (λ r h. ground (arith, h)) free in
                  record {
                    same_user = ground (arith, is_new, by_id, eq_iff u.id user_id);
                    same_id = ground (arith, is_new);
                    key_hash = ground (arith, is_new);
                    found = ground (
                      arith,
                      t,
                      k,
                      same,
                      is_new,
                      str_eq_refl new.key_hash,
                      find-append (λ r. str_eq r.key_hash new.key_hash) w.auth.api_keys (new ∷ [])
                          no_hash,
                    );
                    owned = ground (
                      arith,
                      t,
                      k,
                      same,
                      is_new,
                      str_eq_refl id,
                      by_id,
                      find-append (owned_key user_id id) w.auth.api_keys (new ∷ []) no_id,
                    );
                    cache = ground (arith, t, k);
                  }
            ]
      ]

  create_api_key-Created :
      (user_id : String) (name part : Text) (expires_at : Option Text) (id : String) (now : ℕ)
      (w : Accounts) (key : ApiKey)
      → (create_api_key o user_id name part expires_at id now w).0 ≡ ok key
      → Created user_id id part now w key (create_api_key o user_id name part expires_at id now w).1
  unfolding create_api_key
  create_api_key-Created user_id name part expires_at id now w key e =
      elim (Bool-cases (is_empty_text (trim name))) [
        | inl t ↦ absurd (ground (arith, e, t))
        | inr t ↦ elim (Bool-cases (ltb (length part) 43)) [
          | inl k ↦ absurd (ground (arith, e, t, k))
          | inr k ↦ elim (Result-cases (date_of o.parse_date expires_at)) [
            | inr (x, d) ↦ absurd (ground (arith, e, t, k, d))
            | inl (date, d) ↦ elim (Bool-cases (is_past now date)) [
              | inl p ↦ absurd (ground (arith, e, t, k, d, p))
              | inr p ↦
                  rw (t, k, d, p)
                    (add_api_key-Created user_id name part date id now w key
                      (ground (arith, e, t, k, d, p)))
            ]
          ]
        ]
      ]

  load_key-usable :
      (key_hash : String) (now : ℕ) (st : AuthState) (k : ApiKey)
      → key_of key_hash st.api_keys ≡ some k
      → is_usable_key now k ≡ true
      → ((load_key key_hash now st).0 ≡ some (key_payload k))
        × ((load_key key_hash now st).1.api_keys ≡ touch_key k.id now st.api_keys)
  unfolding load_key
  load_key-usable key_hash now st k found usable =
      (ground (arith, found, usable), ground (arith, found, usable))

  -- The rows that tests find, which do not read the time of use, when a key has been used.
  touched :
      (q : ApiKey → Bool) (now : ℕ) (rows : List ApiKey) (k : ApiKey)
      → ((r : ApiKey) → q (record r { last_used_at = some now }) ≡ q r)
      → find q rows ≡ some k
      → find q (touch_key k.id now rows) ≡ some (record k { last_used_at = some now })
  unfolding touch_key
  touched q now rows k keeps found = ground (
    arith,
    str_eq_refl k.id,
    find-update_through (λ (r : ApiKey). str_eq r.id k.id) q
        (λ r. record r { last_used_at = some now }) rows k keeps found,
  )

  revoke_api_key-found :
      (user_id id key_hash : String) (now : ℕ) (w : Accounts) (k : ApiKey)
      → find (owned_key user_id id) w.auth.api_keys ≡ some k
      → key_of key_hash w.auth.api_keys ≡ some k
      → k.id ≡ id
      → k.key_hash ≡ key_hash
      → ((revoke_api_key user_id id now w).0 ≡ ok true)
        × (key_of key_hash (revoke_api_key user_id id now w).1.auth.api_keys
            ≡ some (record k { revoked_at = some now }))
        × (lookup key_hash (revoke_api_key user_id id now w).1.auth.api_key_cache ≡ none)
  unfolding revoke_api_key invalidate_api_key_cache lookup
  revoke_api_key-found user_id id key_hash now w k owned found same_id same_hash =
      let through =
        find-update_through (λ (r : ApiKey). str_eq r.id id) (λ r. str_eq r.key_hash key_hash)
          (λ r. record r { revoked_at = some now }) w.auth.api_keys k (λ r. refl) found in
      let erased = lookup-erase k.key_hash key_hash w.auth.api_key_cache in
      (
        ground (arith, owned),
        ground (arith, owned, through, eq_iff k.id id, same_id),
        ground (arith, owned, erased, eq_iff k.key_hash key_hash, same_hash),
      )

  -- The request that brings a key and no bearer token.
  abbrev pub asking : ℕ → Text → Request
  asking c part = record { authorization = none; x_api_key = some (api_key_prefix ++ c ∷ part) }

  -- What the creation, a request at the first time and the revocation at the second leave.
  abbrev pub revoked_after :
      String → Text → ℕ → Text → Option Text → String → ℕ → ℕ → ℕ → Accounts → Accounts
  revoked_after user_id name c part expires_at id now t1 t2 w =
      let w1 = (create_api_key o user_id name (c ∷ part) expires_at id now w).1 in
      (revoke_api_key user_id id t2
        (record w1 { auth = (resolve_request_auth o.tokens cfg (asking c part) t1 w1.auth).1 })).1

  -- If the creation of an API key succeeds, where its secret part has no dot and the cache holds no
  -- answer for it, then a request that brings the key, and no bearer token, is let in as the
  -- account, if the key has not expired; the account revokes the key with success; and from then
  -- on, although the answer was cached, such a request is let in as no one, whatever requests were
  -- made meanwhile and in whatever order their look-ups are answered and written to the cache, if
  -- no look-up of the key that is under way at the revocation has found it usable, and as long as
  -- the table keeps the key unusable.
  pub create_api_key-revoke_api_key :
      (user_id : String) (name : Text) (c : ℕ) (part : Text) (expires_at : Option Text)
      (id : String) (now t1 t2 : ℕ) (w : Accounts) (key : ApiKey) (fs : List Flight) {t3 : ℕ}
      {st3 : AuthState} {fs3 : List Flight} (t4 : ℕ)
      → (create_api_key o user_id name (c ∷ part) expires_at id now w).0 ≡ ok key
      → any (λ x. x == b'.') (c ∷ part) ≡ false
      → lookup (o.tokens.hash_auth_part (c ∷ part)) w.auth.api_key_cache ≡ none
      → is_usable_key t1 key ≡ true
      → All (Unseen (o.tokens.hash_auth_part (c ∷ part))) fs
      → Run o.tokens cfg
          (λ rows keys. IsUnusable (o.tokens.hash_auth_part (c ∷ part)) keys)
          t2
          (revoked_after user_id name c part expires_at id now t1 t2 w).auth
          fs
          t3
          st3
          fs3
      → let asks =
          λ (at : ℕ) (st : AuthState). resolve_request_auth o.tokens cfg (asking c part) at st in
        let w1 = (create_api_key o user_id name (c ∷ part) expires_at id now w).1 in
        let w2 = record w1 { auth = (asks t1 w1.auth).1 } in
        ((asks t1 w1.auth).0 ≡ ok (key_answer (c ∷ part) (some (key_payload key))))
        × (key.user_id ≡ user_id)
        × ((revoke_api_key user_id id t2 w2).0 ≡ ok true)
        × ((asks t4 st3).0 ≡ ok none)
  create_api_key-revoke_api_key user_id name c part expires_at id now t1 t2 w key fs {t3} {st3}
        {fs3} t4 done plain fresh usable unseen run =
      let h = o.tokens.hash_auth_part (c ∷ part) in
      let w1 = (create_api_key o user_id name (c ∷ part) expires_at id now w).1 in
      let made = create_api_key-Created user_id name (c ∷ part) expires_at id now w key done in
      let asked = resolved_key c part t1 w1.auth plain (ground (arith, made.cache, fresh)) in
      let (answer, rows) = load_key-usable h t1 w1.auth key made.found usable in
      let st2 = (load_key h t1 w1.auth).1 in
      let w2 : Accounts = record w1 { auth = st2 } in
      let used : ApiKey = record key { last_used_at = some t1 } in
      let owned2 : find (owned_key user_id id) st2.api_keys ≡ some used = ground (
        arith,
        rows,
        touched (owned_key user_id id) t1 w1.auth.api_keys key (λ r. refl) made.owned,
      ) in
      let found2 : key_of h st2.api_keys ≡ some used = ground (
        arith,
        rows,
        touched (λ (r : ApiKey). str_eq r.key_hash h) t1 w1.auth.api_keys key (λ r. refl)
            made.found,
      ) in
      let (revoked, found3, fresh3) =
        revoke_api_key-found user_id id h t2 w2 used owned2 found2 made.same_id made.key_hash in
      let w3 = (revoke_api_key user_id id t2 w2).1 in
      let same : (revoked_after user_id name c part expires_at id now t1 t2 w).auth ≡ w3.auth =
        rw (asked, revoked_after) refl in
      let run' : Run o.tokens cfg (λ rows keys. IsUnusable h keys) t2 w3.auth fs t3 st3 fs3 =
        subst (λ x. Run o.tokens cfg (λ rows keys. IsUnusable h keys) t2 x fs t3 st3 fs3) same
          run in
      let good : GoodKeyUntil h 0 w3.auth =
        λ c cached. absurd (let bad : none ≡ some c = sym fresh3 ∙ cached in cc) in
      let closed : IsUnusable h w3.auth.api_keys = λ at. ground (arith, found3) in
      (
        ap (λ x. x.0) asked ∙ ap (λ x. ok (key_answer (c ∷ part) x)) answer,
        made.same_user,
        rw asked revoked,
        resolve_request_auth-shut o.tokens cfg (asking c part) (api_key_prefix ++ c ∷ part)
            (c ∷ part) t4 good unseen closed run' refl refl (parsed-key c part plain),
      )
