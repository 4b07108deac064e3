-- ===== src/Update.antt =====
-- The update check, .agents/skills/archify/scripts/check-update.mjs.
pub mod State
pub mod Decision
pub mod Fetch
mod Samples
