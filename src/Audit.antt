-- ===== src/Audit.antt =====
-- src/audit: the outbox that carries audit events into the audit trail.
pub mod Outbox
