-- ===== src/Db/Database.antt =====
-- db/db.go: the database over its log, its memtable and its table of files. The schemas of the tables
-- are not part of this model.
pub mod Replay
pub mod Writes
pub mod Reads
use golang_db.Base.{
  ℕ, zero, suc, ◌+◌, Bool, Option, none, some, List, [], ◌∷◌, if◌then◌else◌, length, drop, Error,
  eof, unknown_command, out_of_fuel, put_failed, Result, ok, err, ◌>>=◌,
}
use golang_db.Base.Bytes.{Bytes, str_eq}
use golang_db.Base.Dict
use golang_db.Base.Dict.{Dict}
use golang_db.Wal
use golang_db.Wal.{Wal, Disk, read_entry}
use golang_db.Memtable
use golang_db.Memtable.{EntryTree, Memtable, new_memtable, iterate, should_flush}
use golang_db.Sstable.Table
use golang_db.Sstable.Table.{SsTable, new_file}
use golang_db.Sstable.Compaction.{should_run_compaction}
use golang_db.Db.Command.{
  PutCommand, cmd_put, cmd_transaction, read_length_prefixed_string, serialise_put_command,
  deserialise_put_command, serialise_transaction_commit_payload, deserialise_transaction_command,
}
use golang_db.Db.Locks.{LockTable}

pub record TransactionManager : Type 0 where
  pub next_transaction_id : ℕ
  pub key_vs_locks_acquired_map : LockTable

module _ (bt : EntryTree) where
  -- `compactions` counts the goroutines that `go db.ssTable.RunCompaction()` has started.
  pub record Db : Type 0 where
    pub wal : Wal
    pub mem_table : Memtable bt
    pub ss_table : SsTable
    pub transaction_manager : TransactionManager
    pub compactions : ℕ

  unfoldable pub get : Db → Bytes → Result Bytes
  get db key = elim (Memtable.get bt db.mem_table key) [
    | none ↦ Table.get db.ss_table key
    | some value ↦ ok value
  ]

  -- The file is created and written without an error.
  unfoldable pub flush_memtable_to_ss_table : Db → Db
  flush_memtable_to_ss_table db =
      let (file, st) = new_file db.ss_table in
      let st' = Table.write st file (iterate bt db.mem_table) in
      record db {
        ss_table = st';
        compactions = if should_run_compaction st' then db.compactions + 1 else db.compactions;
      }

  unfoldable pub create_ss_table_and_clear_wal_and_mem_table : Db → Db
  unfolding flush_memtable_to_ss_table
  create_ss_table_and_clear_wal_and_mem_table db =
      let flushed = flush_memtable_to_ss_table db in
      record flushed { mem_table = Memtable.clear bt db.mem_table; wal = Wal.clear db.wal }

  -- if db.memTable.ShouldFlush()
  unfoldable pub flush_if_full : Db → Db
  flush_if_full db =
      if should_flush bt db.mem_table then create_ss_table_and_clear_wal_and_mem_table db else db

  -- The call behind the write to the log.
  put_logged : Db → Bytes → Bytes → Result (Unit {0}) × Wal → Result (Unit {0}) × Db
  unfolding flush_if_full
  put_logged db key value (err e, wal') = (err put_failed, record db { wal = wal' })
  put_logged db key value (ok u, wal') = (
    ok tt,
    flush_if_full (record db { wal = wal'; mem_table = Memtable.put bt db.mem_table key value }),
  )

  unfoldable pub put : Disk → Db → Bytes → Bytes → Result (Unit {0}) × Db
  unfolding put_logged
  put disk db key value =
      put_logged db key value (Wal.write_entry disk (serialise_put_command key value) db.wal)

  -- for _, cmd := range putCmds { memTable.Put(cmd.key, cmd.value) }
  unfoldable pub put_commands : List PutCommand → Memtable bt → Memtable bt
  put_commands [] m = m
  put_commands (c ∷ rest) m = put_commands rest (Memtable.put bt m c.key c.value)

  apply_put : Bytes → ℕ → Memtable bt → Result (Memtable bt)
  apply_put payload offset m = do
    (key, value) ← deserialise_put_command payload offset
    ok (Memtable.put bt m key value)

  apply_transaction : Bytes → ℕ → Memtable bt → Result (Memtable bt)
  unfolding put_commands
  apply_transaction payload offset m = do
    put_cmds ← deserialise_transaction_command (drop offset payload)
    ok (put_commands put_cmds m)

  -- The switch of buildMemtableFromWal on the command of a payload.
  apply_command : Bytes → Bytes × ℕ → Memtable bt → Result (Memtable bt)
  unfolding apply_put apply_transaction
  apply_command payload (cmd, offset) m =
      if str_eq cmd cmd_put
      then apply_put payload offset m
      else if str_eq cmd cmd_transaction
      then apply_transaction payload offset m
      else err unknown_command

  unfoldable pub apply_payload : Bytes → Memtable bt → Result (Memtable bt)
  unfolding apply_command
  apply_payload payload m = do
    read ← read_length_prefixed_string payload 0
    apply_command payload read m

  -- io.EOF ends the loop.
  at_error : Error → Memtable bt → Result (Memtable bt)
  at_error eof m = ok m
  at_error e m = err e

  -- Each entry has eight bytes at least, so that one round more than the log has bytes is enough.
  unfoldable pub build_memtable_from_wal : ℕ → Wal → Memtable bt → Result (Memtable bt)
  unfolding at_error
  build_memtable_from_wal zero w m = err out_of_fuel
  build_memtable_from_wal (suc fuel) w m =
      let (r, w') = read_entry w in
      elim r [
        | err e ↦ at_error e m
        | ok payload ↦ (do m' ← apply_payload payload m; build_memtable_from_wal fuel w' m')
      ]

  -- The memtable of NewDB: the log is read from its start.
  unfoldable pub recover : Bytes → Result (Memtable bt)
  recover contents =
      build_memtable_from_wal (length contents + 1) (record { contents = contents; pos = 0 })
        (new_memtable bt)
