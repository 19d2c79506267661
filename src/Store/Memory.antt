-- ===== src/Store/Memory.antt =====
-- store/memory.go: the in-memory repositories, a module for each.
pub mod Telemetry
pub mod Detections
pub mod Alerts
pub mod Incidents
pub mod EvidenceItems
pub mod Recommendations
pub mod Approvals
pub mod Executions
pub mod Verifications
pub mod Requests
pub mod Results
pub mod Campaigns
pub mod Exercises
pub mod Assessments
pub mod Postures
pub mod Components
pub mod Sboms
pub mod Policies
pub mod Vendors
pub mod VendorAssessments
pub mod SupplyLinks
pub mod Assets
pub mod Audits
pub mod Links
