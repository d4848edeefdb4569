-- ===== src/Catalog.antt =====
-- The catalog of capabilities, providers and health probes (src/catalog).
pub mod Entries
pub mod Capabilities
pub mod Providers
pub mod Probes
pub mod Service
pub mod Template
pub mod Handles
pub mod Views
