-- ===== src/Config.antt =====
-- src/core/config.py: the settings models, the merge of settings, the migration of legacy keys and
-- the resolution of keys, sources and files.
pub mod Merge
pub mod Migrate
pub mod Ttl
pub mod Legacy
pub mod Required
pub mod Discovery
