-- ===== src/Db/Open.antt =====
-- NewDB of db/db.go: the memtable from the log, the table of files from its directory, and the schemas
-- from both.
pub mod Restart
mod Tests
use golang_db.Base.{[], length, Result, ok, ◌>>=◌}
use golang_db.Base.Bytes.{Bytes}
use golang_db.Memtable.{EntryTree}
use golang_db.Sstable.Open.{Config, Disk, new_ss_table}
use golang_db.Db.Database.{Db, recover}
use golang_db.Db.Rows.{Schemas}
use golang_db.Db.Tables.{get_table_name_vs_schema_map}

module _ (bt : EntryTree) where
  -- The log is read to its end, and is appended to from then on.
  unfoldable pub new_db : Config → Disk → Bytes → Result (Schemas × Db bt)
  new_db config disk log = do
    mem_table ← recover bt log
    ss_table ← new_ss_table config disk
    let db : Db bt = record {
      wal = record { contents = log; pos = length log };
      mem_table = mem_table;
      ss_table = ss_table;
      transaction_manager = record { next_transaction_id = 1; key_vs_locks_acquired_map = [] };
      compactions = 0;
    }
    schemas ← get_table_name_vs_schema_map bt db
    ok (schemas, db)
