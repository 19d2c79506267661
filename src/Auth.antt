-- ===== src/Auth.antt =====
-- collector/internal/auth: who calls, and what a caller may do. bcrypt is a parameter.
pub mod Roles
pub mod Keys
pub mod Guard
mod Tests
