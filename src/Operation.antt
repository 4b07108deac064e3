-- ===== src/Operation.antt =====
-- The operations on the cache directory of the update check, .agents/skills/archify/scripts/check-update.mjs:
-- directories named by a kind and a generation, of which one commits a new state.
pub mod Name
mod Tests
pub mod Samples
pub mod Store
pub mod Claim
pub mod Reads
pub mod Commit
pub mod Promote
pub mod Acquire
pub mod Containment
