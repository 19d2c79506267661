-- ===== src/Incident.antt =====
-- The incident manager (collector/internal/incident): alerts are folded into incidents, which move
-- through their life cycle one step at a time.
pub mod Correlation
pub mod Records
pub mod Manager
pub mod Coherent
pub mod Runs
pub mod Attached
pub mod Steps
mod Tests
