-- ===== src/Cache.antt =====
-- The cache directory of the update check, .agents/skills/archify/scripts/check-update.mjs.
pub mod Disk
pub mod Action
pub mod Guard
pub mod Change
pub mod Prefix
mod Tests
