-- ===== src/Limiter/Discord/Choice.antt =====
-- packages/discord-client/src/rate-limiter.ts: the webhook that is chosen, and the sliding window of
-- errors that keeps the host clear of Cloudflare's ban.
use mathlib.Core.Path.{fun_ext}
use ddrive.Prelude.{
  ap₂, ℕ, ◌+◌, ◌≤◌, ◌<◌, ◌%◌, ◌≡◌, refl, ap, ◌∙◌, ◌⊎◌, inl, inr, false, List, [], ◌∷◌, Option, none,
  some, String, arith, ltb, length, filter, Bool-cases, get_elem?, ltb→le, ltb→lt,
}
use ddrive.Limiter.RoundRobin.{round_robin, Found, round_robin-outcome}
use ddrive.Limiter.Discord.{
  Limiter, can_use, is_recent, is_global_safe, cloudflare_error_threshold, choose, get_best_webhook,
  sleep, wait_round,
}

-- The errors of the last ten minutes.
abbrev pub recent_errors : Limiter → ℕ → ℕ
recent_errors l now = length (filter (is_recent now) l.error_timestamps)

-- The sliding window has room, as far as the limiter may go.
abbrev pub IsSafe : Limiter → ℕ → Type 0
IsSafe l now = recent_errors l now < cloudflare_error_threshold

filter-filter_recent :
    (now later : ℕ) (ts : List ℕ)
    → now ≤ later
    → filter (is_recent later) (filter (is_recent now) ts) ≡ filter (is_recent later) ts
unfolding filter
filter-filter_recent now later [] h = refl
filter-filter_recent now later (t ∷ ts) h = ground (arith, filter-filter_recent now later ts h)

-- `isGlobalSafe` tells whether fewer errors than the threshold lie in the window, and the
-- timestamps that it evicts are never missed: at any later time the count is the same.
pub is_global_safe-recent_errors :
    (l : Limiter) (now later : ℕ)
    → now ≤ later
    → ((is_global_safe l now).1 ≡ ltb (recent_errors l now) cloudflare_error_threshold)
      × (recent_errors (is_global_safe l now).0 later ≡ recent_errors l later)
unfolding is_global_safe
is_global_safe-recent_errors l now later h =
    (refl, ap length (filter-filter_recent now later l.error_timestamps h))

-- The outcomes of `getBestWebhook`. A webhook is returned exactly when the window of errors has room
-- and some webhook can be used; it is then the first usable one from the cursor on, around the end
-- of the list, and the cursor moves behind it.
pub data Best (l : Limiter) (now : ℕ) (ids : List String) : Limiter × Option String → Type 0 where
  chosen :
      {l' : Limiter} (idx : ℕ) (id : String)
      → IsSafe l now
      → Found (can_use l now) ids l.round_robin_index 0 idx id
      → l'.round_robin_index ≡ (idx + 1) % length ids
      → Best l now ids (l', some id)
  refused :
      {l' : Limiter}
      → ¬ IsSafe l now
        ⊎ ((k : ℕ) (id : String) → get_elem? ids k ≡ some id → can_use l now id ≡ false)
      → l'.round_robin_index ≡ l.round_robin_index
      → Best l now ids (l', none)

choose-Best :
    (l l' : Limiter) (now : ℕ) (ids : List String)
    → IsSafe l now
    → ((id : String) → can_use l' now id ≡ can_use l now id)
    → l'.round_robin_index ≡ l.round_robin_index
    → Best l now ids (choose l' now ids)
unfolding choose
choose-Best l l' now [] safe same cursor = refused (inr (λ k id e. cc)) cursor
choose-Best l l' now (x ∷ ids) safe same cursor =
    elim (round_robin-outcome (can_use l now) (x ∷ ids) l.round_robin_index (omega arith)) [
      | inl (idx, id, run, lt, found) ↦ rw (moved run, choose) (chosen idx id safe found refl)
      | inr (run, unusable) ↦ rw (moved run, choose) (refused (inr unusable) cursor)
    ]
  where
    moved :
        {r : Option (ℕ × String)}
        → round_robin (can_use l now) (x ∷ ids) l.round_robin_index ≡ r
        → round_robin (can_use l' now) (x ∷ ids) l'.round_robin_index ≡ r
    moved e = ap₂ (λ f n. round_robin f (x ∷ ids) n) (fun_ext same) cursor ∙ e

-- `getBestWebhook` returns the first usable webhook from the cursor on, around the end of the list, and
-- moves the cursor behind it, or, with the cursor kept, nothing, when the window of errors is full or
-- no webhook can be used.
pub get_best_webhook-Best :
    (l : Limiter) (now : ℕ) (ids : List String) → Best l now ids (get_best_webhook l now ids)
unfolding get_best_webhook
get_best_webhook-Best l now ids =
    elim (Bool-cases (ltb (recent_errors l now) cloudflare_error_threshold)) [
      | inl e ↦
          rw (e, get_best_webhook)
            (choose-Best l (is_global_safe l now).0 now ids (ltb→lt _ _ e)
              (λ id. unfold can_use in refl) refl)
      | inr e ↦
          rw (e, get_best_webhook) (refused (inl (λ s. absurd (omega (arith, ltb→le _ _ e)))) refl)
    ]

-- `waitForAvailable` never sleeps for less than 50 ms or for more than two seconds between rounds.
pub wait_round-sleep :
    (l l' : Limiter) (now ms : ℕ) (ids : List String)
    → wait_round l now ids ≡ (l', sleep ms)
    → (50 ≤ ms) × (ms ≤ 2000)
unfolding wait_round
wait_round-sleep l l' now ms ids e = ground arith
