-- ===== src/Sstable.antt =====
-- sstable/: immutable files of sorted entries, their index blocks, and compaction.
pub mod Blocks
pub mod Index
pub mod Search
pub mod Table
pub mod Open
pub mod Scan
pub mod Rounds
pub mod Compaction
mod Tests
