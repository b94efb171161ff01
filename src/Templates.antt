-- ===== src/Templates.antt =====
-- presentation/templates.py: the texts that the owner writes, with variables and formatting.
pub mod Rendering
pub mod Entities
pub mod Validity
mod Examples
