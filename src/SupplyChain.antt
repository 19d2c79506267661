-- ===== src/SupplyChain.antt =====
-- Supply chain (collector/internal/supplychain): components, their dependencies, bills of materials,
-- policies and vendors.
pub mod Component
pub mod Dependency
pub mod Sbom
pub mod Versions
pub mod Policy
pub mod Vendor
pub mod Link
pub mod Checks
mod Tests
