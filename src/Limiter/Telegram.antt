-- ===== src/Limiter/Telegram.antt =====
-- packages/telegram-client/src/rate-limiter.ts and the choice of a sender in
-- apps/api/src/storage/telegram-blobs.ts. `Date.now()` is the argument `now`.
pub mod Uploads
use ddrive.Prelude.{
  ℕ, ◌+◌, ◌-◌, ◌*◌, ◌%◌, min, max, Bool, true, false, ◌&&◌, List, [], ◌∷◌, Option, none, some,
  String, ltb, leb, if◌then◌else◌, filter, length, map,
}
use ddrive.Prelude.Tables.{Map, lookup, insert}
use ddrive.Limiter.RoundRobin.{round_robin}

pub record SenderState : Type 0 where
  pub next_allowed_at : ℕ
  pub in_flight : ℕ

-- `TelegramRateLimiter`.
pub record Limiter : Type 0 where
  pub senders : Map SenderState
  pub min_send_interval_ms : ℕ

abbrev pub default_min_send_interval_ms : ℕ
default_min_send_interval_ms = 1100

abbrev pub max_in_flight_per_sender : ℕ
max_in_flight_per_sender = 1

-- `state(id)`: a sender that is not known is entered with this state.
unfoldable pub state_of : Limiter → String → SenderState
state_of l id = elim (lookup id l.senders) [
  | none ↦ record { next_allowed_at = 0; in_flight = 0 }
  | some s ↦ s
]

abbrev pub put_state : Limiter → String → SenderState → Limiter
put_state l id s = record l { senders = insert id s l.senders }

-- The entry that `state(id)` makes is observed by `getNextResetMs` only as the default that an absent
-- entry has there too.
unfoldable pub can_use : Limiter → ℕ → String → Bool
can_use l now id =
    leb (state_of l id).next_allowed_at now
    && ltb (state_of l id).in_flight max_in_flight_per_sender

unfoldable pub reserve : Limiter → String → Limiter
reserve l id = let s = state_of l id in put_state l id (record s { in_flight = s.in_flight + 1 })

-- `Math.max(0, inFlight - 1)`: the subtraction stops at 0.
unfoldable pub release : Limiter → String → Limiter
release l id = let s = state_of l id in put_state l id (record s { in_flight = s.in_flight - 1 })

unfoldable pub record_sent : Limiter → String → ℕ → Limiter
record_sent l id now =
    put_state l id (record (state_of l id) { next_allowed_at = now + l.min_send_interval_ms })

unfoldable pub record_retry_after : Limiter → String → ℕ → ℕ → Limiter
record_retry_after l id retry_after_seconds now =
    let s = state_of l id in
    put_state l id
      (record s { next_allowed_at = max s.next_allowed_at (now + retry_after_seconds * 1000) })

-- The earliest time at which one of the senders may send; `none` is `Infinity`.
earliest_allowed : Limiter → List String → Option ℕ → Option ℕ
earliest_allowed l [] earliest = earliest
earliest_allowed l (id ∷ ids) earliest =
    let at = (state_of l id).next_allowed_at in
    earliest_allowed l ids
      (elim earliest [ none ↦ some at | some e ↦ if ltb at e then some at else some e ])

unfoldable pub get_next_reset_ms : Limiter → ℕ → List String → ℕ
unfolding earliest_allowed
get_next_reset_ms l now ids = elim (earliest_allowed l ids none) [
  | none ↦ 0
  | some earliest ↦ earliest - now
]

-- The variables that `selectSender` works on: the limiter and `roundRobinIndex`.
pub record Selector : Type 0 where
  pub limiter : Limiter
  pub round_robin_index : ℕ

-- One round of the loop of `selectSender`: the bot, reserved, or how long to sleep.
pub data Round : Type 0 where
  reserved : String → Round
  sleep : ℕ → Round

unfoldable pub select_round : Selector → ℕ → List String → Selector × Round
select_round s now bots = elim (round_robin (can_use s.limiter now) bots s.round_robin_index) [
  | some (idx, bot) ↦ (
    record { limiter = reserve s.limiter bot; round_robin_index = (idx + 1) % length bots },
    reserved bot,
  )
  | none ↦ (s, sleep (max 50 (min (get_next_reset_ms s.limiter now bots) 1000)))
]

-- `telegramSenderAvailability`.
unfoldable pub availability : Limiter → ℕ → List String → ℕ
availability l now bots = length (filter (can_use l now) bots)
