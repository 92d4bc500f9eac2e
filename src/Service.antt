-- ===== src/Service.antt =====
-- pkg/service
pub mod Health
pub mod Base
pub mod Conn
pub mod Http
pub mod Grpc
pub mod Process
pub mod Container
pub mod Tests
