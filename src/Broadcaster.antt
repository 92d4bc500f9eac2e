-- ===== src/Broadcaster.antt =====
-- pkg/broadcaster
pub mod Barrier
pub mod Chan
pub mod Listener
pub mod State
pub mod Heap
pub mod Invariant
pub mod Steps
pub mod Schedule
pub mod Stopping
pub mod Delivery
mod Tests
