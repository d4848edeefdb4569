-- ===== src/Examples.antt =====
-- Runs of the models on concrete data.
pub mod Milli
pub mod Setup
pub mod Prompts
pub mod Clients
pub mod Feeds
pub mod Network
pub mod Markets
pub mod Documents
pub mod Services
pub mod Caches
pub mod Registries
