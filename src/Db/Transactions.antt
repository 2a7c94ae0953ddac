-- ===== src/Db/Transactions.antt =====
-- db/transaction.go: the calls of a transaction over the database.
pub mod Commit
pub mod Reads
pub mod Sessions
use golang_db.Base.{ℕ, ◌+◌, Option, none, some, List, [], ◌∷◌, Result, ok, err, ◌>>=◌}
use golang_db.Base.Bytes.{Bytes}
use golang_db.Base.Dict
use golang_db.Base.Dict.{Dict}
use golang_db.Wal
use golang_db.Wal.{Wal, Disk}
use golang_db.Memtable.{EntryTree}
use golang_db.Db.Command.{PutCommand, serialise_transaction_commit_payload}
use golang_db.Db.Locks.{
  LockTable, Transaction, try_acquire_write_lock, try_acquire_read_lock, release_all_locks,
}
use golang_db.Db.Database.{Db, get, put_commands, flush_if_full}

module _ (bt : EntryTree) where
  -- Begin
  unfoldable pub begin : Db bt → Transaction × Db bt
  begin db =
      let id = db.transaction_manager.next_transaction_id in
      (
        record { id = id; buffered_writes = []; lock_acquired_keys = [] },
        record db {
          transaction_manager = record db.transaction_manager { next_transaction_id = id + 1 };
        },
      )

  unfoldable pub with_locks : Db bt → LockTable → Db bt
  with_locks db locks = record db {
    transaction_manager = record db.transaction_manager { key_vs_locks_acquired_map = locks };
  }

  -- Put of a transaction: the write is buffered where the lock is given.
  unfoldable pub txn_put : Transaction → Db bt → Bytes → Bytes → Result (Transaction × Db bt)
  unfolding with_locks
  txn_put txn db key value = do
    (txn', locks) ← try_acquire_write_lock txn key db.transaction_manager.key_vs_locks_acquired_map
    ok (
      record txn' { buffered_writes = Dict.put key value txn'.buffered_writes },
      with_locks db locks,
    )

  -- The read behind the lock: the transaction's own write comes first.
  read_value : Transaction → Db bt → Bytes → Result Bytes
  unfolding get
  read_value txn db key = elim (Dict.lookup key txn.buffered_writes) [
    | none ↦ get bt db key
    | some value ↦ ok value
  ]

  -- Get of a transaction: an error of the read leaves the lock with the transaction.
  unfoldable pub txn_get : Transaction → Db bt → Bytes → Result (Result Bytes × Transaction × Db bt)
  unfolding with_locks read_value
  txn_get txn db key = do
    (txn', locks) ← try_acquire_read_lock txn key db.transaction_manager.key_vs_locks_acquired_map
    ok (read_value txn' db key, txn', with_locks db locks)

  -- releaseAllLocks and cleanupBufferedWriteMap
  end_transaction : Transaction → Db bt → Result (Transaction × Db bt)
  unfolding with_locks
  end_transaction txn db = do
    (txn', locks) ← release_all_locks txn db.transaction_manager.key_vs_locks_acquired_map
    ok (record txn' { buffered_writes = [] }, with_locks db locks)

  unfoldable pub rollback : Transaction → Db bt → Result (Transaction × Db bt)
  unfolding end_transaction
  rollback txn db = end_transaction txn db

  -- The part of Commit behind the write to the log. `writes` is the order of its second loop over the
  -- map, in which the memtable takes them.
  commit_logged :
      List PutCommand
      → Transaction
      → Db bt
      → Result (Unit {0}) × Wal
      → Result (Result (Unit {0}) × Transaction × Db bt)
  unfolding end_transaction
  commit_logged writes txn db (err e, wal') = ok (err e, txn, record db { wal = wal' })
  commit_logged writes txn db (ok u, wal') = do
    (txn', db') ← end_transaction txn (
        flush_if_full bt
          (record db { wal = wal'; mem_table = put_commands bt writes db.mem_table }))
    ok (ok tt, txn', db')

  -- A range over a map visits it in any order, and the second range in another: `logged` and `writes`
  -- are the two. The outer error is a run-time fault.
  unfoldable pub commit :
      Disk
      → List PutCommand
      → List PutCommand
      → Transaction
      → Db bt
      → Result (Result (Unit {0}) × Transaction × Db bt)
  unfolding commit_logged
  commit disk logged writes txn db =
      commit_logged writes txn db
        (Wal.write_entry disk (serialise_transaction_commit_payload logged) db.wal)
