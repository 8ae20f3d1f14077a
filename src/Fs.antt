-- ===== src/Fs.antt =====
-- The file system of the third assignment (a3/fs/).
pub mod Cache
pub mod Sectors
pub mod Inode
pub mod File
pub mod FreeMap
pub mod Space
pub mod Writing
pub mod Storage
pub mod Directory
pub mod Path
mod Tests
