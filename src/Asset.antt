-- ===== src/Asset.antt =====
-- The asset inventory (collector/internal/asset): canonical identifiers, observations and the life cycle.
pub mod Message
pub mod Canonical
pub mod Discovery
pub mod Lifecycle
pub mod Ages
mod Tests
