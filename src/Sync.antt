-- ===== src/Sync.antt =====
-- pkg/syncutil
pub mod GValue
pub mod Once
pub mod Tests
