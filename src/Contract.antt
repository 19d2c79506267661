-- ===== src/Contract.antt =====
-- The contract layer (collector/internal/contract): the messages, their enumerations, and the
-- validation at every boundary.
pub mod Passed
pub mod Enums
pub mod Equality
pub mod Messages
pub mod Labels
pub mod Check
pub mod Response
pub mod Detection
pub mod Incident
pub mod Fields
pub mod Sensitive
pub mod Asset
pub mod Validation
pub mod Valid
