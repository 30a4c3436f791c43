-- ===== src/Limiter/Telegram/Uploads.antt =====
-- apps/api/src/storage/telegram-blobs.ts and packages/telegram-client/src/client.ts: the uploads that
-- share one limiter, and what they do to it.
pub mod Serial
use ddrive.Prelude.{
  ℕ, ◌+◌, ◌-◌, ◌≤◌, ◌%◌, min, max, ◌≡◌, refl, ap, ◌∙◌, inl, inr, Bool, true, false, List, [], ◌∷◌,
  ◌++◌, none, some, String, arith, length, if◌then◌else◌, str_eq, Bool-cases, eq_iff,
}
use ddrive.Prelude.Tables.{lookup, lookup-insert}
use ddrive.Limiter.RoundRobin.{round_robin, round_robin-outcome}
use ddrive.Limiter.Telegram.{
  SenderState, Limiter, state_of, put_state, can_use, reserve, release, record_sent,
  record_retry_after, Selector, select_round, Round, reserved, sleep, get_next_reset_ms,
}

state_of-put_state :
    (l : Limiter) (id other : String) (s : SenderState)
    → state_of (put_state l id s) other ≡ (if str_eq id other then s else state_of l other)
unfolding state_of
state_of-put_state l id other s = elim (Bool-cases (str_eq id other)) [
  | inl e ↦ rw (lookup-insert id other s l.senders, e, state_of)
  | inr e ↦ rw (lookup-insert id other s l.senders, e, state_of)
]

-- An upload that has its sender: the sender, and whether a request of `uploadDocument` is under way.
abbrev pub Upload : Type 0
Upload = String × Bool

pub record World : Type 0 where
  pub selector : Selector
  pub uploads : List Upload

abbrev with_limiter : World → Limiter → List Upload → World
with_limiter w l ups = record { selector = record w.selector { limiter = l }; uploads = ups }

-- `const bot = await selectSender(bots)`, as far as one round comes.
begun : World → Selector × Round → World
begun w (s, reserved bot) = record { selector = s; uploads = (bot, false) ∷ w.uploads }
begun w (s, sleep ms) = record { selector = s; uploads = w.uploads }

pub begin : World → ℕ → List String → World
begin w now bots = begun w (select_round w.selector now bots)

-- What the uploads in progress do to the limiter that they share, in any order.
pub data Event : World → World → Type 0 where
  selects : (w : World) (now : ℕ) (bots : List String) → Event w (begin w now bots)
  -- `rateLimiter.reserve(bot.id)` before a request, and `release` behind it
  attempts :
      (w : World) (before after : List Upload) (id : String)
      → w.uploads ≡ before ++ (id, false) ∷ after
      → Event w (with_limiter w (reserve w.selector.limiter id) (before ++ (id, true) ∷ after))
  responds :
      (w : World) (before after : List Upload) (id : String)
      → w.uploads ≡ before ++ (id, true) ∷ after
      → Event w (with_limiter w (release w.selector.limiter id) (before ++ (id, false) ∷ after))
  -- `finally { sharedRateLimiter.release(bot.id) }`
  finishes :
      (w : World) (before after : List Upload) (id : String)
      → w.uploads ≡ before ++ (id, false) ∷ after
      → Event w (with_limiter w (release w.selector.limiter id) (before ++ after))
  sent :
      (w : World) (id : String) (now : ℕ)
      → Event w (with_limiter w (record_sent w.selector.limiter id now) w.uploads)
  throttled :
      (w : World) (id : String) (seconds now : ℕ)
      → Event w (with_limiter w (record_retry_after w.selector.limiter id seconds now) w.uploads)

pub data Reaches (w : World) : World → Type 0 where
  here : Reaches w w
  next : {t u : World} → Reaches w t → Event t u → Reaches w u

-- The uploads that a sender carries, and the reservations that they hold.
pub carried : String → List Upload → ℕ
carried j [] = 0
carried j ((id, busy) ∷ ups) = (if str_eq id j then 1 else 0) + carried j ups

held : String → List Upload → ℕ
held j [] = 0
held j ((id, busy) ∷ ups) = (if str_eq id j then (if busy then 2 else 1) else 0) + held j ups

carried-append :
    (j : String) (xs ys : List Upload) → carried j (xs ++ ys) ≡ carried j xs + carried j ys
unfolding carried
carried-append j [] ys = omega arith
carried-append j ((id, b) ∷ xs) ys = ground (arith, carried-append j xs ys)

held-append : (j : String) (xs ys : List Upload) → held j (xs ++ ys) ≡ held j xs + held j ys
unfolding held
held-append j [] ys = omega arith
held-append j ((id, b) ∷ xs) ys = ground (arith, held-append j xs ys)

carried-le-held : (j : String) (ups : List Upload) → carried j ups ≤ held j ups
unfolding carried held
carried-le-held j [] = omega arith
carried-le-held j ((id, b) ∷ ups) = ground (arith, carried-le-held j ups)

held-middle :
    (j : String) (xs ys : List Upload) (id : String) (b : Bool)
    → held j (xs ++ (id, b) ∷ ys)
      ≡ held j xs + held j ys + (if str_eq id j then (if b then 2 else 1) else 0)
held-middle j xs ys id b = held-append j xs ((id, b) ∷ ys) ∙ (unfold held in omega arith)

carried-middle :
    (j : String) (xs ys : List Upload) (id : String) (b : Bool)
    → carried j (xs ++ (id, b) ∷ ys) ≡ carried j xs + carried j ys + (if str_eq id j then 1 else 0)
carried-middle j xs ys id b = carried-append j xs ((id, b) ∷ ys) ∙ (unfold carried in omega arith)

-- The state in which the process starts.
abbrev pub initial : ℕ → World
initial interval = record {
  selector = record {
    limiter = record { senders = []; min_send_interval_ms = interval };
    round_robin_index = 0;
  };
  uploads = [];
}
