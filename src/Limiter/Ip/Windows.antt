-- ===== src/Limiter/Ip/Windows.antt =====
-- apps/api/src/middleware/rate-limit.ts: how many requests of one key pass in a window, and that the
-- cleanup changes no verdict.
use ddrive.Prelude.{
  ℕ, suc, ◌+◌, ◌-◌, ◌≤◌, ◌<◌, min, ◌≡◌, refl, ap, ◌⊎◌, inl, inr, ◌≢◌, List, [], ◌∷◌, Option, none,
  some, String, arith, leb, length, str_cases, All, Bool-cases, leb→le, eq_iff, subst,
}
use ddrive.Prelude.Tables.{Map, lookup}
use ddrive.Limiter.Ip.{Entry, Policy, allowed, refused, count_request, cleanup, new_window}

-- The requests of one key at the given times, in order: how many are allowed.
pub allowed_count : Policy → Option Entry → List ℕ → ℕ
allowed_count p e [] = 0
allowed_count p e (now ∷ times) =
    let (e', v) = count_request now p e in
    elim v [
      | allowed ↦ suc (allowed_count p (some e') times)
      | refused s ↦ allowed_count p (some e') times
    ]

allowed_count-open :
    (p : Policy) (e : Entry) (times : List ℕ)
    → All (λ t. t < e.reset_at) times
    → allowed_count p (some e) times ≡ min (length times) (p.max_requests - e.count)
unfolding allowed_count count_request
allowed_count-open p e [] h = omega arith
allowed_count-open p e (t ∷ times) (lt, h) =
    ground (arith, allowed_count-open p (record e { count = e.count + 1 }) times h)

-- If a policy allows one request at least, and a request finds no window open, or one that is over:
-- of it and the requests that follow before the end of the window that it opens, exactly the first
-- maxRequests are allowed.
pub allowed_count-window :
    (p : Policy) (e : Option Entry) (start : ℕ) (times : List ℕ)
    → 0 < p.max_requests
    → ((old : Entry) → e ≡ some old → old.reset_at ≤ start)
    → All (λ t. t < start + p.window_ms) times
    → allowed_count p e (start ∷ times) ≡ min (length (start ∷ times)) p.max_requests
unfolding allowed_count count_request
allowed_count-window p none start times pos over h =
    ground (arith, allowed_count-open p (new_window start p) times h)
allowed_count-window p (some old) start times pos over h =
    ground (arith, over old refl, allowed_count-open p (new_window start p) times h)

-- A key stands once in the map, as in any JavaScript `Map`.
abbrev pub IsAbsent : String → Map Entry → Type 0
IsAbsent k m = All (λ b. b.0 ≢ k) m

abbrev pub HasUniqueKeys : Map Entry → Type 0
HasUniqueKeys [] = Unit
HasUniqueKeys ((k, e) ∷ m) = IsAbsent k m × HasUniqueKeys m

lookup_absent : (k : String) (m : Map Entry) → IsAbsent k m → lookup k m ≡ none
unfolding lookup
lookup_absent k [] h = refl
lookup_absent k ((j, e) ∷ m) (ne, h) = ground (arith, eq_iff j k, lookup_absent k m h)

cleanup-IsAbsent :
    (now : ℕ) (k : String) (m : Map Entry) → IsAbsent k m → IsAbsent k (cleanup now m)
unfolding cleanup
cleanup-IsAbsent now k [] h = tt
cleanup-IsAbsent now k ((j, e) ∷ m) (ne, h) = ground (arith, cleanup-IsAbsent now k m h)

lookup-cleanup :
    (now : ℕ) (k : String) (m : Map Entry)
    → HasUniqueKeys m
    → (lookup k (cleanup now m) ≡ lookup k m)
      ⊎ ((lookup k (cleanup now m) ≡ none)
          × ((e : Entry) × (lookup k m ≡ some e) × (e.reset_at ≤ now)))
unfolding lookup cleanup
lookup-cleanup now k [] u = inl refl
lookup-cleanup now k ((j, e) ∷ m) (absent, u) = elim (Bool-cases (leb e.reset_at now)) [
  | inl over ↦ elim (str_cases j k) [
    | inl (t, eq) ↦ inr (
      rw (over, cleanup)
          (lookup_absent k (cleanup now m)
            (cleanup-IsAbsent now k m (subst (λ x. IsAbsent x m) eq absent))),
      (e, rw t, leb→le _ _ over),
    )
    | inr (t, ne) ↦ elim (lookup-cleanup now k m u) [
      | inl same ↦ inl (rw (over, cleanup, t) same)
      | inr (gone, (e', was, past)) ↦ inr (rw (over, cleanup) gone, (e', rw t was, past))
    ]
  ]
  | inr open_still ↦ elim (str_cases j k) [
    | inl (t, eq) ↦ inl (rw (open_still, cleanup, t))
    | inr (t, ne) ↦ elim (lookup-cleanup now k m u) [
      | inl same ↦ inl (rw (open_still, cleanup, t) same)
      | inr (gone, (e', was, past)) ↦ inr (rw (open_still, cleanup, t) gone, (e', rw t was, past))
    ]
  ]
]

-- The cleanup forgets only what no verdict depends on: a request of any key and policy, at that time
-- or later, is counted and answered as without it.
pub cleanup-count_request :
    (now later : ℕ) (p : Policy) (k : String) (m : Map Entry)
    → now ≤ later
    → HasUniqueKeys m
    → count_request later p (lookup k (cleanup now m)) ≡ count_request later p (lookup k m)
cleanup-count_request now later p k m h u = elim (lookup-cleanup now k m u) [
  | inl same ↦ ap (count_request later p) same
  | inr (gone, (e, was, past)) ↦ rw (gone, was) (unfold count_request in ground arith)
]
