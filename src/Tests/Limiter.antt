-- ===== src/Tests/Limiter.antt =====
-- The rate limiters on concrete states.
use ddrive.Prelude.{
  ◌≤◌, ◌≡◌, refl, true, List, [], ◌∷◌, Option, none, some, String, arith, min, filter, subst,
}
use ddrive.Prelude.Tables.{lookup}
use ddrive.Limiter.RoundRobin.{scan, round_robin}
use ddrive.Limiter.Discord
use ddrive.Limiter.Discord.Budget.{WithinBudget, reserve-WithinBudget}
use ddrive.Limiter.Discord.Choice.{Best, get_best_webhook-Best}
use ddrive.Limiter.Telegram
use ddrive.Limiter.Telegram.Uploads.{Reaches, here, next, selects, begin, initial, carried}
use ddrive.Limiter.Telegram.Uploads.Serial.{Reaches-serial}
use ddrive.Limiter.Ip
use ddrive.Limiter.Ip.Windows.{allowed_count, allowed_count-window}

abbrev hooks : List String
hooks = "a" ∷ "b" ∷ []

abbrev busy : Discord.Limiter
busy = record {
  webhooks =
      ("a", record { remaining = 1; reset_at = 500; bucket_hash = "h"; in_flight = 1 })
      ∷ ("b", record { remaining = 2; reset_at = 500; bucket_hash = "h"; in_flight = 1 })
      ∷ [];
  error_timestamps = 90 ∷ 700000 ∷ [];
  round_robin_index = 0;
  cloudflare_blocked_until = 0;
}

b_usable : Discord.can_use busy 100 "b" ≡ true
unfolding Discord.can_use lookup
b_usable = refl

picks_b : (Discord.get_best_webhook busy 100 hooks).1 ≡ some "b"
unfolding Discord.get_best_webhook Discord.is_global_safe Discord.can_use lookup filter scan
    round_robin
picks_b = refl

reserve-WithinBudget_example : WithinBudget (Discord.reserve busy "b") 100 "b"
reserve-WithinBudget_example = reserve-WithinBudget busy 100 "b" b_usable

get_best_webhook-Best_example : Best busy 100 hooks (Discord.get_best_webhook busy 100 hooks)
get_best_webhook-Best_example = get_best_webhook-Best busy 100 hooks

-- The timestamps within ten minutes of the time 100: both.
abbrev busy_later : Discord.Limiter
busy_later = busy

a_idle : Discord.wait_round busy 100 ("a" ∷ []) ≡ (busy_later, Discord.sleep 400)
unfolding Discord.wait_round Discord.get_best_webhook Discord.is_global_safe Discord.can_use
    Discord.get_next_reset_ms lookup filter scan round_robin
a_idle = refl

abbrev bots : List String
bots = "x" ∷ "y" ∷ []

two_uploads : Reaches (initial 1100) (begin (begin (initial 1100) 10 bots) 20 bots)
two_uploads = next (next here (selects _ 10 bots)) (selects _ 20 bots)

Reaches-serial_example :
    ((j : String) → carried j (begin (begin (initial 1100) 10 bots) 20 bots).uploads ≤ 1)
    × ((begin (begin (initial 1100) 10 bots) 20 bots).uploads ≡ []
        → (j : String)
        → (Telegram.state_of
            (begin (begin (initial 1100) 10 bots) 20 bots).selector.limiter
            j).in_flight
          ≡ 0)
Reaches-serial_example = Reaches-serial 1100 _ two_uploads

abbrev old_entry : Ip.Entry
old_entry = record { count = 9; reset_at = 100 }

abbrev WasOver : Option Ip.Entry → Type 0
WasOver none = Unit
WasOver (some e) = e.reset_at ≤ 100

allowed_count-window_example :
    allowed_count (Ip.policy_of Ip.auth) (some old_entry) (100 ∷ 200 ∷ 300 ∷ []) ≡ min 3 10
allowed_count-window_example =
    allowed_count-window (Ip.policy_of Ip.auth) (some old_entry) 100 (200 ∷ 300 ∷ []) (omega arith)
      (λ old e. subst (λ o. WasOver o) e (omega arith)) (omega arith, (omega arith, tt))
