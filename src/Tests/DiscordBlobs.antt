-- ===== src/Tests/DiscordBlobs.antt =====
-- apps/api/src/storage/discord-blobs.ts with three webhooks, one of which is relayed, and a bot.
use ddrive.Prelude.{◌≤◌, ◌≡◌, refl, true, [], ◌∷◌, List, String, str_eq, filter}
use ddrive.Prelude.Sort.{sort_by, insert_by}
use ddrive.Prelude.Tables.{lookup}
use ddrive.Limiter.RoundRobin.{scan, round_robin}
use ddrive.Limiter.Discord.{Limiter, can_use}
use ddrive.Storage.DiscordBlobs.{
  Layout, Senders, webhook, bot, active_of, groups_from, partition_sequential, grouped_in,
  grouped_servers, grouped_users, build_grouped_webhooks, sender_has_capacity,
  score_grouped_webhook, is_free, available, select_round,
}
use ddrive.Storage.DiscordBlobs.Tiers.{chosen_well, select_round-chosen_well}
use ddrive.Storage.DiscordBlobs.Capacity.{
  World, Reaches, here, next, selects, select, carried, Reaches-capped,
}

abbrev layout : Layout
layout = record { servers = 2; user_groups = 1; is_relayed = λ id. str_eq id "w3" }

abbrev limiter : Limiter
limiter = record {
  webhooks = [];
  error_timestamps = [];
  round_robin_index = 0;
  cloudflare_blocked_until = 0;
}

abbrev senders : Senders
senders = record {
  limiter = limiter;
  active = [];
  server_index = 0;
  user_group_index = 0;
  bot_index = 0;
}

abbrev webhooks : List String
webhooks = "w1" ∷ "w2" ∷ "w3" ∷ []

abbrev bots : List String
bots = "BOT_1" ∷ []

abbrev busy : Senders
busy = record senders { active = ("w1", 2) ∷ ("w2", 2) ∷ [] }

groups : partition_sequential webhooks 2 ≡ ("w1" ∷ "w2" ∷ []) ∷ ("w3" ∷ []) ∷ []
unfolding partition_sequential groups_from filter
groups = refl

first_webhook : (select_round layout senders 5 webhooks bots).1 ≡ webhook "w1"
unfolding select_round available is_free score_grouped_webhook sender_has_capacity can_use sort_by
    insert_by filter lookup build_grouped_webhooks partition_sequential groups_from grouped_in
    grouped_servers grouped_users
first_webhook = refl

-- The bot goes before the webhook that is relayed.
bot_first : (select_round layout busy 5 webhooks bots).1 ≡ bot "BOT_1"
unfolding select_round available is_free score_grouped_webhook sender_has_capacity can_use sort_by
    insert_by filter lookup build_grouped_webhooks partition_sequential groups_from grouped_in
    grouped_servers grouped_users round_robin scan
bot_first = refl

select_round-chosen_well_example :
    chosen_well layout busy 5 webhooks bots (select_round layout busy 5 webhooks bots).1 ≡ true
select_round-chosen_well_example = select_round-chosen_well layout busy 5 webhooks bots

abbrev idle : World
idle = record { senders = senders; uploads = [] }

abbrev one_upload : World
one_upload = select layout 5 webhooks bots idle

two_uploads : Reaches idle (select layout 6 webhooks bots one_upload)
two_uploads =
    next (next here (selects idle layout 5 webhooks bots))
      (selects one_upload layout 6 webhooks bots)

Reaches-capped_example :
    (active_of (select layout 6 webhooks bots one_upload).senders "w1"
      ≡ carried "w1" (select layout 6 webhooks bots one_upload).uploads)
    × (carried "w1" (select layout 6 webhooks bots one_upload).uploads ≤ 2)
Reaches-capped_example = Reaches-capped "w1" two_uploads refl refl
