-- ===== src/Health.antt =====
-- src/health: which probes run, what a probe reports, and the report of a health check.
pub mod Registry
pub mod Selection
pub mod Models
pub mod Views
pub mod Probes
pub mod Verdict
pub mod Service
pub mod Report
