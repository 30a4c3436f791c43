-- ===== src/Limiter.antt =====
-- The rate limiters: packages/discord-client, packages/telegram-client and the per-IP limits of
-- apps/api, with the round-robin loop that the choice of a sender is made by.
pub mod RoundRobin
pub mod Discord
pub mod Telegram
pub mod Ip
