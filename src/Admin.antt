-- ===== src/Admin.antt =====
-- admin/registry.py and admin/service.py: the settings that the owner edits, and repositories/settings.py.
pub mod Values
pub mod Registry
pub mod Service
pub mod Bounds
pub mod Audit
pub mod Runs
pub mod Effects
pub mod Readers
mod Examples
