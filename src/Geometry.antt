-- ===== src/Geometry.antt =====
-- The geometry that the renderers share, .agents/skills/archify/renderers/shared/geometry.mjs.
pub mod Number
pub mod Segments
pub mod Route
pub mod Flow
pub mod Corridors
pub mod Crossings
pub mod Sides
pub mod Borders
pub mod Bridge
pub mod Spread
pub mod Gates
mod Tests
