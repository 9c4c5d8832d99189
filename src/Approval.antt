-- ===== src/Approval.antt =====
-- Human approvals, app/services/approval_service.py.
pub mod Expire
pub mod Resolve
pub mod Once
pub mod Final
pub mod Authority
pub mod Rollback
