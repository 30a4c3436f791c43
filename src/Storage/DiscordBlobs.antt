-- ===== src/Storage/DiscordBlobs.antt =====
-- apps/api/src/storage/discord-blobs.ts: the choice of a sender, webhooks by groups before bots before
-- relayed webhooks, and the number of uploads that a sender carries. Senders stand for their
-- identifiers; the numbers of the environment are arguments.
pub mod Groups
pub mod Tiers
pub mod Capacity
use ddrive.Prelude.{
  ℕ, zero, suc, ◌+◌, ◌-◌, ◌*◌, ◌/◌, ◌%◌, min, max, Bool, true, false, not, ◌&&◌, List, [], ◌∷◌,
  ◌++◌, Option, none, some, String, map, length, take, drop, filter, ltb, leb, ◌==◌, if◌then◌else◌,
}
use ddrive.Prelude.Sort.{sort_by}
use ddrive.Prelude.Tables.{Map, lookup, insert, erase}
use ddrive.Storage.Rows.{Result, ok, err}
use ddrive.Limiter.RoundRobin.{round_robin}
use ddrive.Limiter.Discord.{Limiter, can_use, get_next_reset_ms}

-- `SERVERS_COUNT` and `USER_GROUPS_COUNT`, and whether a webhook goes through the relay.
pub record Layout : Type 0 where
  pub servers : ℕ
  pub user_groups : ℕ
  pub is_relayed : String → Bool

abbrev pub get_server_count : Layout → ℕ → ℕ
get_server_count y count = max 1 (min y.servers (max 1 count))

abbrev pub get_user_group_count : Layout → ℕ → ℕ
get_user_group_count y count = max 1 (min y.user_groups (max 1 count))

abbrev pub is_full {ℓ} : {A : Type ℓ} → List A → Bool
is_full [] = false
is_full (x ∷ xs) = true

-- The loop from group `i` on, with `left` groups to go and the items that are left; the first
-- `remainder` groups have an item more.
unfoldable pub groups_from {ℓ} : {A : Type ℓ} → ℕ → ℕ → ℕ → ℕ → List A → List (List A)
groups_from base remainder i zero items = []
groups_from base remainder i (suc left) items =
    let size = base + (if ltb i remainder then 1 else 0) in
    take size items ∷ groups_from base remainder (i + 1) left (drop size items)

abbrev pub safe_group_count : ℕ → ℕ → ℕ
safe_group_count count group_count = max 1 (min group_count (if count == 0 then 1 else count))

unfoldable pub partition_sequential {ℓ} : {A : Type ℓ} → List A → ℕ → List (List A)
unfolding groups_from
partition_sequential items group_count =
    let safe = safe_group_count (length items) group_count in
    filter is_full (groups_from (length items / safe) (length items % safe) 0 safe items)

pub record GroupedWebhook : Type 0 where
  pub webhook : String
  pub user_group_index : ℕ
  pub server_group_index : ℕ
  pub index_within_server_group : ℕ

-- The three nested `forEach`, from an index on.
unfoldable pub grouped_in : ℕ → ℕ → ℕ → List String → List GroupedWebhook
grouped_in user server i [] = []
grouped_in user server i (w ∷ ws) =
    record {
      webhook = w;
      user_group_index = user;
      server_group_index = server;
      index_within_server_group = i;
    }
    ∷ grouped_in user server (i + 1) ws

unfoldable pub grouped_servers : ℕ → ℕ → List (List String) → List GroupedWebhook
unfolding grouped_in
grouped_servers user server [] = []
grouped_servers user server (g ∷ gs) =
    grouped_in user server 0 g ++ grouped_servers user (server + 1) gs

-- `Math.max(1, Math.round((totalServers * userGroup.length) / Math.max(1, webhooks.length)))`.
abbrev pub proportional_server_count : ℕ → ℕ → ℕ → ℕ
proportional_server_count total_servers group count =
    max 1 ((2 * (total_servers * group) + max 1 count) / (2 * max 1 count))

unfoldable pub grouped_users : ℕ → ℕ → ℕ → List (List String) → List GroupedWebhook
unfolding partition_sequential grouped_servers
grouped_users total_servers count user [] = []
grouped_users total_servers count user (g ∷ gs) =
    grouped_servers user 0
      (partition_sequential g (proportional_server_count total_servers (length g) count))
    ++ grouped_users total_servers count (user + 1) gs

unfoldable pub build_grouped_webhooks : Layout → List String → List GroupedWebhook
unfolding partition_sequential grouped_users
build_grouped_webhooks y webhooks =
    grouped_users (get_server_count y (length webhooks)) (length webhooks) 0
      (partition_sequential webhooks (get_user_group_count y (length webhooks)))

-- The module's variables.
pub record Senders : Type 0 where
  pub limiter : Limiter
  pub active : Map ℕ
  pub server_index : ℕ
  pub user_group_index : ℕ
  pub bot_index : ℕ

abbrev pub max_concurrent_per_sender : ℕ
max_concurrent_per_sender = 2

abbrev pub active_of : Senders → String → ℕ
active_of s id = elim (lookup id s.active) [ none ↦ 0 | some n ↦ n ]

unfoldable pub sender_has_capacity : Senders → String → Bool
sender_has_capacity s id = ltb (active_of s id) max_concurrent_per_sender

unfoldable pub claim_sender : String → Senders → Senders
claim_sender id s = record s { active = insert id (active_of s id + 1) s.active }

unfoldable pub unclaim_sender : String → Senders → Senders
unclaim_sender id s =
    let n : ℕ = elim (lookup id s.active) [ none ↦ 1 | some n ↦ n ] in
    record s { active = if leb n 1 then erase id s.active else insert id (n - 1) s.active }

-- `(a - b + n) % n`, and `n` more: the remainder of the language has the sign of its first operand.
abbrev pub distance : ℕ → ℕ → ℕ → ℕ
distance n a b = if leb b (a + n) then n + (a + n - b) % n else n - (b - (a + n)) % n

-- The score, and a constant more.
unfoldable pub score_grouped_webhook : Layout → Senders → GroupedWebhook → ℕ
score_grouped_webhook y s c =
    distance (max 1 (get_user_group_count y 10000)) c.user_group_index s.user_group_index * 10000
    + distance 32 c.server_group_index s.server_index * 100
    + c.index_within_server_group

abbrev pub max_of : List ℕ → ℕ
max_of [] = 0
max_of (n ∷ ns) = max n (max_of ns)

unfoldable pub advance_group_cursors : GroupedWebhook → List GroupedWebhook → Senders → Senders
advance_group_cursors selected grouped s =
    let users = max 1 (max_of (map (λ (c : GroupedWebhook). c.user_group_index + 1) grouped)) in
    let servers = max_of (
      map (λ (c : GroupedWebhook). c.server_group_index + 1)
        (filter (λ (c : GroupedWebhook). c.user_group_index == selected.user_group_index)
          grouped)) in
    record s {
      user_group_index = (selected.user_group_index + 1) % users;
      server_index = if leb servers 0 then 0 else (selected.server_group_index + 1) % servers;
    }

pub data Round : Type 0 where
  webhook : String → Round
  bot : String → Round
  sleep : ℕ → Round

unfoldable pub is_free : Senders → ℕ → String → Bool
unfolding sender_has_capacity
is_free s now id = can_use s.limiter now id && sender_has_capacity s id

-- The free webhooks of a tier, the best first.
unfoldable pub available : Layout → Senders → ℕ → List GroupedWebhook → List GroupedWebhook
unfolding is_free score_grouped_webhook
available y s now tier =
    sort_by (score_grouped_webhook y s)
      (filter (λ (c : GroupedWebhook). is_free s now c.webhook) tier)

abbrev pub take_webhook : GroupedWebhook → List GroupedWebhook → Senders → Senders × Round
take_webhook c grouped s =
    (claim_sender c.webhook (advance_group_cursors c grouped s), webhook c.webhook)

-- One round of the loop of `selectSender`.
unfoldable pub select_round : Layout → Senders → ℕ → List String → List String → Senders × Round
unfolding available build_grouped_webhooks claim_sender advance_group_cursors
select_round y s now webhooks bots =
    let grouped = build_grouped_webhooks y webhooks in
    let direct = filter (λ (c : GroupedWebhook). not (y.is_relayed c.webhook)) grouped in
    let relayed = filter (λ (c : GroupedWebhook). y.is_relayed c.webhook) grouped in
    elim (available y s now direct) [
      | c ∷ cs ↦ take_webhook c grouped s
      | [] ↦ elim (round_robin (is_free s now) bots s.bot_index) [
        | some (idx, id) ↦
            (claim_sender id (record s { bot_index = (idx + 1) % length bots }), bot id)
        | none ↦ elim (available y s now relayed) [
          | c ∷ cs ↦ take_webhook c grouped s
          | [] ↦ (s, sleep (max 50 (min (get_next_reset_ms s.limiter now (webhooks ++ bots)) 100)))
        ]
      ]
    ]

-- `selectSender` up to the end of a round: it throws, before the loop, where no webhook is configured,
-- whatever bots there are.
unfoldable pub select_sender :
    Layout → Senders → ℕ → List String → List String → Result (Senders × Round)
select_sender y s now webhooks bots = elim (build_grouped_webhooks y webhooks) [
  | [] ↦ err "No Discord webhooks configured"
  | c ∷ cs ↦ ok (select_round y s now webhooks bots)
]

-- `discordSenderAvailability`.
unfoldable pub sender_availability : Senders → ℕ → List String → List String → ℕ
unfolding is_free
sender_availability s now webhooks bots = length (filter (is_free s now) (webhooks ++ bots))
