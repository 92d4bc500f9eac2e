-- ===== src/Cache.antt =====
-- pkg/service/grpc/cache
pub mod State
pub mod Events
pub mod Recv
pub mod Client
pub mod NewService
pub mod Publish
pub mod Tests
