-- ===== src/Env.antt =====
-- pkg/env
pub mod Os
pub mod Args
pub mod Getters
pub mod Load
pub mod Tests
