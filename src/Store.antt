-- ===== src/Store.antt =====
-- The stores (collector/internal/store): the repositories and their in-memory implementation.
pub mod Table
pub mod Memory
pub mod Backend
mod Tests
