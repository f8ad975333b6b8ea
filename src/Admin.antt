-- ===== src/Admin.antt =====
-- src/admin: the administration interface.
pub mod Session
