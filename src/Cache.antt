-- ===== src/Cache.antt =====
-- The cache backends (src/network/cache.py).
pub mod Backend
pub mod Memory
pub mod Sqlite
pub mod Manager
pub mod Opening
pub mod Checks
