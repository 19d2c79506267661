-- ===== src/Response.antt =====
-- The response layer (collector/internal/response): recommendation, policy, approval, the execution
-- gate, verification, audit, and the engine that walks a recommendation through them.
pub mod Error
pub mod Safety
pub mod Policy
pub mod Approval
pub mod Executor
pub mod Verifier
pub mod Audit
pub mod Recommend
pub mod Engine
pub mod Samples
mod Tests
mod PartTests
