-- ===== src/Recovery.antt =====
-- src/core/recovery_*.c: the recovery client.
pub mod Stream
