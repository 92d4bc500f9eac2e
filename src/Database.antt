-- ===== src/Database.antt =====
-- pkg/database
pub mod Key
pub mod Order
pub mod UpperBound
pub mod Engine
pub mod Table
mod Tests
