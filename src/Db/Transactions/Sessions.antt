-- ===== src/Db/Transactions/Sessions.antt =====
-- The calls of a transaction on a database, by what they leave of it: `with_locks bt db locks` is the
-- database with other locks.
use golang_db.Base.{ℕ, ◌≡◌, refl, List, [], ◌++◌, length, Error, ok, err}
use golang_db.Base.Bytes.{Bytes}
use golang_db.Base.Dict
use golang_db.Base.Dict.{Dict}
use golang_db.Wal
use golang_db.Wal.{works, frame}
use golang_db.Memtable.{EntryTree}
use golang_db.Db.Command.{PutCommand, serialise_transaction_commit_payload}
use golang_db.Db.Locks.{
  LockTable, Transaction, try_acquire_write_lock, release_all_locks, release_keys,
}
use golang_db.Db.Locks.Held.{AllHeld, release_all_locks-ok}
use golang_db.Db.Database.{Db, get, put_commands, flush_if_full}
use golang_db.Db.Transactions.{
  txn_put, rollback, commit, commit_logged, end_transaction, with_locks,
}
use golang_db.Db.Transactions.Commit.{flush_if_full-locks}

module _ (bt : EntryTree) where
  pub txn_put-ok :
      (db : Db bt) (txn txn' : Transaction) (locks locks' : LockTable) (k v : Bytes)
      → try_acquire_write_lock txn k locks ≡ ok (txn', locks')
      → txn_put bt txn (with_locks bt db locks) k v
        ≡ ok (
          record txn' { buffered_writes = Dict.put k v txn'.buffered_writes },
          with_locks bt db locks',
        )
  unfolding txn_put with_locks
  txn_put-ok db txn txn' locks locks' k v h = rw h refl

  pub txn_put-err :
      (db : Db bt) (txn : Transaction) (locks : LockTable) (k v : Bytes) (e : Error)
      → try_acquire_write_lock txn k locks ≡ err e
      → txn_put bt txn (with_locks bt db locks) k v ≡ err e
  unfolding txn_put with_locks
  txn_put-err db txn locks k v e h = rw h refl

  -- The database behind the write to the log, before a flush.
  abbrev pub committed : Db bt → List PutCommand → List PutCommand → Db bt
  committed db first second =
      let contents : Bytes =
        db.wal.contents ++ frame (serialise_transaction_commit_payload first) in
      record db {
        wal = record { contents = contents; pos = length contents };
        mem_table = put_commands bt second db.mem_table;
      }

  end_transaction-get :
      (txn : Transaction) (db : Db bt)
      → AllHeld txn db.transaction_manager.key_vs_locks_acquired_map
      → (s : Transaction × Db bt) × (end_transaction bt txn db ≡ ok s)
        × ((j : Bytes) → get bt s.1 j ≡ get bt db j)
  unfolding end_transaction with_locks get
  end_transaction-get txn db h =
      let ((txn', locks), runs) =
        release_all_locks-ok txn db.transaction_manager.key_vs_locks_acquired_map h in
      ((record txn' { buffered_writes = [] }, with_locks bt db locks), rw runs refl, λ j. refl)

  -- A Commit that the disk takes.
  pub commit-get :
      (db : Db bt) (txn : Transaction) (locks : LockTable) (first second : List PutCommand)
      → AllHeld txn locks
      → (s : Transaction × Db bt) × (commit bt works first second txn (with_locks bt db locks)
          ≡ ok (ok tt, s.0, s.1))
        × ((j : Bytes)
            → get bt s.1 j
              ≡ get bt (flush_if_full bt (with_locks bt (committed db first second) locks)) j)
  unfolding commit commit_logged Wal.write_entry with_locks
  commit-get db txn locks first second held =
      let stored = with_locks bt (committed db first second) locks in
      let (s, runs, same) =
        end_transaction-get txn (flush_if_full bt stored)
          (rw (flush_if_full-locks bt stored) held) in
      (s, rw runs refl, same)

  -- A transaction without locks.
  pub rollback-unlocked :
      (db : Db bt) (id : ℕ) (writes : Dict Bytes) (locks : LockTable)
      → rollback bt
          (record { id = id; buffered_writes = writes; lock_acquired_keys = [] })
          (with_locks bt db locks)
        ≡ ok (
          record { id = id; buffered_writes = []; lock_acquired_keys = [] },
          with_locks bt db locks,
        )
  unfolding rollback end_transaction release_all_locks release_keys with_locks
  rollback-unlocked db id writes locks = refl
