-- ===== src/Grc.antt =====
-- Governance (collector/internal/grc): requirements, controls, assessments and resilience posture.
pub mod Basis
pub mod Model
pub mod Resilience
pub mod Tests
