-- ===== src/Validation.antt =====
-- Control validation (collector/internal/validation): campaigns, exercises, requests to providers and
-- the registry of providers.
pub mod Error
pub mod Campaign
pub mod Exercise
pub mod Provider
pub mod Registry
pub mod Runner
pub mod RunTests
pub mod Request
pub mod Executor
pub mod Native
pub mod Tests
