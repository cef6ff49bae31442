-- ===== src/Crfs.antt =====
-- The Cobalt ROM file system, cobalt_romfs/crfs_func.c.
pub mod Freemap
pub mod Layout
pub mod State
pub mod Cache
pub mod Monad
pub mod Inode
pub mod Dir
pub mod Create
pub mod File
pub mod Io
pub mod Phased
pub mod Free
pub mod Listing
pub mod Mount
pub mod Format
mod Example
mod Tests
mod Runs
