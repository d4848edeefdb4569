-- ===== src/Facade.antt =====
-- The client facade of src/client.py and src/catalog/adapter_registry.py: how it is built and closed.
pub mod Adapters
pub mod Build
pub mod Loops
pub mod Closing
pub mod Built
pub mod Configured
