-- ===== src/Obs.antt =====
-- pkg/service/obs
pub mod Config
pub mod Setup
pub mod Keeps
pub mod Opening
pub mod New
pub mod Tests
