-- ===== src/Storage.antt =====
-- src/storage: pages, the file, the list of free pages and the buffer pool.
pub mod Page
pub mod Disk
pub mod FreeList
pub mod Pool
mod Tests
