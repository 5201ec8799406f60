-- ===== src/Storage.antt =====
-- src/core/anti_rollback.c: what the client keeps between boots.
pub mod AntiRollback
