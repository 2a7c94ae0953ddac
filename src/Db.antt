-- ===== src/Db.antt =====
-- db/: the database over the memtable, the write-ahead log and the sstables.
pub mod Command
pub mod Locks
pub mod Schema
pub mod Rows
pub mod Tables
pub mod Open
pub mod Indexes
pub mod Insert
pub mod Conditions
pub mod Select
pub mod Database
pub mod Transactions
mod Tests
