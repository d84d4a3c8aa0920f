-- ===== src/Storage.antt =====
-- src/storage: the quotas of uploads.
pub mod Quota
