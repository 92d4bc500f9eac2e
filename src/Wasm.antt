-- ===== src/Wasm.antt =====
-- pkg/runtimes/wasm
pub mod Guest
pub mod Module
pub mod New
pub mod Runtime
pub mod Moves
pub mod Blocks
pub mod Results
pub mod Tests
