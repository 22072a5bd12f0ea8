-- ===== src/Contracts.antt =====
-- contracts.py: what a request may hold.
pub mod Identifiers
pub mod Parameters
pub mod Request
