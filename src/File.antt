-- ===== src/File.antt =====
-- pkg/ioutil
pub mod LastLines
pub mod Oldest
pub mod Listing
pub mod Write
