-- ===== src/Sync.antt =====
-- Synchronisation between processors.
pub mod Spinlock
