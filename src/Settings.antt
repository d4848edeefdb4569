-- ===== src/Settings.antt =====
-- src/core/settings_dump.py and the redaction of src/providers/descriptor.py.
pub mod Redact
pub mod Dump
pub mod Secrecy
pub mod Whole
