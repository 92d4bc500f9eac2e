-- ===== src/Collection.antt =====
-- pkg/collection
pub mod Queue
pub mod Fifo
pub mod Set
pub mod SyncMap
pub mod Funcs
pub mod Tests
