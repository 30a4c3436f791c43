-- ===== src/Limiter/Ip.antt =====
-- apps/api/src/middleware/rate-limit.ts. The map and the clock are arguments.
pub mod Windows
use ddrive.Prelude.{ℕ, ◌+◌, ◌-◌, ◌/◌, [], ◌∷◌, Option, none, some, String, ltb, leb, if◌then◌else◌}
use ddrive.Prelude.Tables.{Map, lookup, insert}
use Prim.Native.String.{◌++◌ as concat}

pub record Entry : Type 0 where
  pub count : ℕ
  pub reset_at : ℕ

pub record Policy : Type 0 where
  pub window_ms : ℕ
  pub max_requests : ℕ

pub data PolicyName : Type 0 where
  blob auth : PolicyName

-- `RATE_LIMIT_POLICIES`.
abbrev pub policy_of : PolicyName → Policy
policy_of blob = record { window_ms = 60000; max_requests = 300 }
policy_of auth = record { window_ms = 60000; max_requests = 10 }

-- `${policyName}:${ip}`.
abbrev pub key_of : PolicyName → String → String
key_of blob ip = concat "blob:" ip
key_of auth ip = concat "auth:" ip

pub data Verdict : Type 0 where
  allowed : Verdict
  -- with `retryAfter` in seconds
  refused : ℕ → Verdict

-- `Math.ceil(ms / 1000)`.
abbrev pub ceil_seconds : ℕ → ℕ
ceil_seconds ms = (ms + 999) / 1000

abbrev pub new_window : ℕ → Policy → Entry
new_window now p = record { count = 1; reset_at = now + p.window_ms }

-- A request on an entry: what the entry becomes, and the verdict.
unfoldable pub count_request : ℕ → Policy → Option Entry → Entry × Verdict
count_request now p none = (new_window now p, allowed)
count_request now p (some e) =
    if leb e.reset_at now
    then (new_window now p, allowed)
    else let e' : Entry = record e { count = e.count + 1 } in
      if ltb p.max_requests (e.count + 1)
      then (e', refused (ceil_seconds (e.reset_at - now)))
      else (e', allowed)

unfoldable pub check_rate_limit : Map Entry → String → PolicyName → ℕ → Map Entry × Verdict
check_rate_limit limits ip name now =
    let (e, v) = count_request now (policy_of name) (lookup (key_of name ip) limits) in
    (insert (key_of name ip) e limits, v)

-- The periodic cleanup of expired entries.
unfoldable pub cleanup : ℕ → Map Entry → Map Entry
cleanup now [] = []
cleanup now ((k, e) ∷ limits) =
    let rest = cleanup now limits in if leb e.reset_at now then rest else (k, e) ∷ rest
