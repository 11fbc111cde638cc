-- ===== src/Membership/Redis.antt =====
-- membership/redis: the Lua scripts that redis runs, one at a time, and the subscriber.
pub mod Script
pub mod Subscribe
pub mod Heartbeat
pub mod Fetch
pub mod Runs
pub mod Follows
pub mod Refines
pub mod Resync
