-- ===== src/Evidence.antt =====
-- Evidence (collector/internal/evidence): items with a digest, what is kept of an alert, and the store.
pub mod Item
pub mod Alerts
pub mod Store
pub mod Faithful
pub mod Complete
mod Tests
