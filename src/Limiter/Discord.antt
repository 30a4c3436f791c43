-- ===== src/Limiter/Discord.antt =====
-- packages/discord-client/src/rate-limiter.ts. `Date.now()` is the argument `now`, in milliseconds;
-- the numbers of the headers are given as read (`parseInt`, and `parseFloat` times 1000) and are
-- not negative. A difference that is only compared with 0 is compared as an order.
pub mod Budget
pub mod Choice
use ddrive.Prelude.{
  ℕ, ◌+◌, ◌-◌, ◌*◌, ◌%◌, min, max, Bool, true, false, not, ◌||◌, List, [], ◌∷◌, ◌++◌, Option, none,
  some, String, ltb, leb, ◌==◌, if◌then◌else◌, filter, length,
}
use ddrive.Prelude.Tables.{Map, lookup, insert}
use ddrive.Limiter.RoundRobin.{round_robin}

pub record WebhookState : Type 0 where
  pub remaining : ℕ
  pub reset_at : ℕ
  pub bucket_hash : String
  pub in_flight : ℕ

-- `WebhookRateLimiter`.
pub record Limiter : Type 0 where
  pub webhooks : Map WebhookState
  pub error_timestamps : List ℕ
  pub round_robin_index : ℕ
  pub cloudflare_blocked_until : ℕ

-- The three headers that `recordResponse` reads.
pub record RateHeaders : Type 0 where
  pub remaining : Option ℕ
  pub reset_after_ms : Option ℕ
  pub bucket : Option String

abbrev pub webhook_rate_limit_default : ℕ
webhook_rate_limit_default = 120

abbrev pub cloudflare_error_threshold : ℕ
cloudflare_error_threshold = 8000

abbrev pub cloudflare_window_ms : ℕ
cloudflare_window_ms = 600000

abbrev pub empty_limiter : Limiter
empty_limiter = record {
  webhooks = [];
  error_timestamps = [];
  round_robin_index = 0;
  cloudflare_blocked_until = 0;
}

abbrev pub fresh : WebhookState
fresh = record {
  remaining = webhook_rate_limit_default;
  reset_at = 0;
  bucket_hash = "";
  in_flight = 0;
}

-- `webhooks.get(id) ?? { remaining: ..., ... }`, which is also `getStateSnapshot`.
unfoldable pub state_of : Limiter → String → WebhookState
state_of l id = elim (lookup id l.webhooks) [ none ↦ fresh | some s ↦ s ]

abbrev put_state : Limiter → String → WebhookState → Limiter
put_state l id s = record l { webhooks = insert id s l.webhooks }

abbrev or_else {ℓ} : {A : Type ℓ} → Option A → A → A
or_else none d = d
or_else (some a) d = a

unfoldable pub record_response : Limiter → String → RateHeaders → ℕ → Limiter
record_response l id h now =
    let s = state_of l id in
    put_state l id (record s {
      remaining = or_else h.remaining s.remaining;
      reset_at = elim h.reset_after_ms [ none ↦ s.reset_at | some ms ↦ now + ms ];
      bucket_hash = or_else h.bucket s.bucket_hash;
    })

unfoldable pub record_error : Limiter → ℕ → ℕ → Limiter
record_error l status now =
    if status == 401 || status == 403 || status == 429
    then record l { error_timestamps = l.error_timestamps ++ now ∷ [] }
    else l

unfoldable pub record_throttle : Limiter → String → ℕ → Bool → ℕ → Limiter
record_throttle l id retry_after_ms true now = record l {
  cloudflare_blocked_until = max l.cloudflare_blocked_until (now + retry_after_ms);
}
record_throttle l id retry_after_ms false now =
    let s = state_of l id in
    put_state l id (record s { remaining = 0; reset_at = max s.reset_at (now + retry_after_ms) })

unfoldable pub cloudflare_block_remaining_ms : Limiter → ℕ → ℕ
cloudflare_block_remaining_ms l now = l.cloudflare_blocked_until - now

unfoldable pub can_use : Limiter → ℕ → String → Bool
can_use l now id = elim (lookup id l.webhooks) [
  | none ↦ true
  | some s ↦ if leb s.reset_at now then true else ltb s.in_flight s.remaining
]

unfoldable pub reserve : Limiter → String → Limiter
reserve l id = let s = state_of l id in put_state l id (record s { in_flight = s.in_flight + 1 })

-- `Math.max(0, inFlight - 1)`: the subtraction stops at 0.
unfoldable pub release : Limiter → String → Limiter
release l id = elim (lookup id l.webhooks) [
  | none ↦ l
  | some s ↦ put_state l id (record s { in_flight = s.in_flight - 1 })
]

-- `t > cutoff` for `cutoff = now - cloudflareWindowMs`.
abbrev pub is_recent : ℕ → ℕ → Bool
is_recent now t = ltb now (t + cloudflare_window_ms)

unfoldable pub is_global_safe : Limiter → ℕ → Limiter × Bool
is_global_safe l now =
    let kept = filter (is_recent now) l.error_timestamps in
    (record l { error_timestamps = kept }, ltb (length kept) cloudflare_error_threshold)

choose : Limiter → ℕ → List String → Limiter × Option String
choose l now [] = (l, none)
choose l now (id ∷ ids) = elim (round_robin (can_use l now) (id ∷ ids) l.round_robin_index) [
  | none ↦ (l, none)
  | some (idx, found) ↦ (record l { round_robin_index = (idx + 1) % length (id ∷ ids) }, some found)
]

unfoldable pub get_best_webhook : Limiter → ℕ → List String → Limiter × Option String
unfolding choose is_global_safe
get_best_webhook l now ids =
    let (l', safe) = is_global_safe l now in if safe then choose l' now ids else (l', none)

-- The earliest `resetAt` of the senders that are known; `none` is `Infinity`.
earliest_reset : Limiter → List String → Option ℕ → Option ℕ
earliest_reset l [] earliest = earliest
earliest_reset l (id ∷ ids) earliest = earliest_reset l ids (elim (lookup id l.webhooks) [
  | none ↦ earliest
  | some s ↦ elim earliest [
    | none ↦ some s.reset_at
    | some e ↦ if ltb s.reset_at e then some s.reset_at else some e
  ]
])

unfoldable pub get_next_reset_ms : Limiter → ℕ → List String → ℕ
unfolding earliest_reset
get_next_reset_ms l now ids = elim (earliest_reset l ids none) [
  | none ↦ 0
  | some earliest ↦ earliest - now
]

-- One round of `waitForAvailable`: the sender, or how long to sleep before the next round.
pub data Round : Type 0 where
  ready : String → Round
  sleep : ℕ → Round

unfoldable pub wait_round : Limiter → ℕ → List String → Limiter × Round
wait_round l now ids =
    let (l', found) = get_best_webhook l now ids in
    elim found [
      | some id ↦ (l', ready id)
      | none ↦
          let next_reset = get_next_reset_ms l' now ids in
          (l', sleep (max 50 (min (if next_reset == 0 then 50 else next_reset) 2000)))
    ]
