-- ===== src/Db/Transactions/Commit.antt =====
-- Commit of db/transaction.go: the log and the memtable stay in step, and the locks are given back.
use golang_db.Base.{
  ◌≤◌, ◌≡◌, refl, sym, ap, ◌∙◌, Option, none, some, Bool-cases, inl, inr, List, [], ◌∷◌, ◌++◌,
  if◌then◌else◌, length, ok,
}
use golang_db.Base.Bytes.{Bytes, str_eq, str_eq_iff}
use golang_db.Base.Dict
use golang_db.Base.Dict.{Dict, lookup-put}
use golang_db.Wal
use golang_db.Wal.{works, frame, max_payload}
use golang_db.Memtable.{EntryTree, should_flush}
use golang_db.Db.Command.{PutCommand, serialise_transaction_commit_payload}
use golang_db.Db.Locks.{Transaction, LockTable}
use golang_db.Db.Locks.Held.{AllHeld, release_all_locks-ok}
use golang_db.Db.Database.{
  Db, put_commands, flush_if_full, create_ss_table_and_clear_wal_and_mem_table,
  flush_memtable_to_ss_table,
}
use golang_db.Db.Database.Replay.{together, written, get-put_commands}
use golang_db.Db.Database.Writes.{IsLogged, logged, flush_if_full-IsLogged}
use golang_db.Db.Transactions.{commit, commit_logged, end_transaction, with_locks}

-- The value that a list of writes has for a key.
abbrev pub command_at : Bytes → List PutCommand → Option Bytes
command_at key [] = none
command_at key (c ∷ rest) = if str_eq c.key key then some c.value else command_at key rest

-- No key twice.
abbrev pub HasOnce : List PutCommand → Type 0
HasOnce [] = Unit {0}
HasOnce (c ∷ rest) = (command_at c.key rest ≡ none) × HasOnce rest

-- An order in which a range visits a map: each key once, with its value.
pub record IsRangeOf (cs : List PutCommand) (m : Dict Bytes) : Type 0 where
  pub once : HasOnce cs
  pub same : (key : Bytes) → command_at key cs ≡ Dict.lookup key m

abbrev pub or_before : Option Bytes → Option Bytes → Option Bytes
or_before none before = before
or_before (some v) before = some v

pub written-HasOnce :
    (key : Bytes) (cs : List PutCommand) (before : Option Bytes)
    → HasOnce cs
    → written key cs before ≡ or_before (command_at key cs) before
written-HasOnce key [] before h = refl
written-HasOnce key (c ∷ cs) before h = elim (Bool-cases (str_eq c.key key)) [
  | inl same ↦
      let e : c.key ≡ key = (str_eq_iff c.key key).0 same in
      rw same (written-HasOnce key cs (some c.value) h.1 ∙ rw (rw e at h.0))
  | inr other ↦ rw other (written-HasOnce key cs before h.1)
]

-- Two orders of one map write the same.
written-IsRangeOf :
    (key : Bytes) (cs ds : List PutCommand) (m : Dict Bytes) (before : Option Bytes)
    → IsRangeOf cs m
    → IsRangeOf ds m
    → written key cs before ≡ written key ds before
written-IsRangeOf key cs ds m before h g =
    written-HasOnce key cs before h.once
    ∙ ap (λ (o : Option Bytes). or_before o before) (h.same key ∙ sym (g.same key))
    ∙ sym (written-HasOnce key ds before g.once)

module _ (bt : EntryTree) where
  with_locks-IsLogged :
      (db : Db bt) (locks : LockTable) → IsLogged bt db → IsLogged bt (with_locks bt db locks)
  unfolding with_locks
  with_locks-IsLogged db locks h = record {
    log = h.log;
    contents = h.contents;
    readable = h.readable;
    held = h.held;
  }

  end_transaction-ok :
      (txn : Transaction) (db : Db bt)
      → AllHeld txn db.transaction_manager.key_vs_locks_acquired_map
      → IsLogged bt db
      → (s : Transaction × Db bt) × (end_transaction bt txn db ≡ ok s) × IsLogged bt s.1
  unfolding end_transaction
  end_transaction-ok txn db h logged =
      let ((txn', locks), runs) =
        release_all_locks-ok txn db.transaction_manager.key_vs_locks_acquired_map h in
      (
        (record txn' { buffered_writes = [] }, with_locks bt db locks),
        rw runs,
        with_locks-IsLogged db locks logged,
      )

  pub flush_if_full-locks :
      (db : Db bt) → (flush_if_full bt db).transaction_manager ≡ db.transaction_manager
  unfolding flush_if_full create_ss_table_and_clear_wal_and_mem_table flush_memtable_to_ss_table
  flush_if_full-locks db = elim (Bool-cases (should_flush bt db.mem_table)) [
    | inl b ↦ rw b
    | inr b ↦ rw b
  ]

  -- On a database whose log and memtable are in step, a Commit that the disk takes, of writes that take
  -- at most a megabyte in the log, by a transaction whose noted keys are in the table of locks: whatever
  -- the orders of its two loops over the buffered writes, it ends without an error and without a
  -- run-time fault, and the log and the memtable are in step behind it.
  pub commit-IsLogged :
      (db : Db bt) (txn : Transaction) (first second : List PutCommand)
      → IsLogged bt db
      → AllHeld txn db.transaction_manager.key_vs_locks_acquired_map
      → IsRangeOf first txn.buffered_writes
      → IsRangeOf second txn.buffered_writes
      → length (serialise_transaction_commit_payload first) ≤ max_payload
      → (s : Transaction × Db bt) × (commit bt works first second txn db ≡ ok (ok tt, s.0, s.1))
        × IsLogged bt s.1
  unfolding commit commit_logged Wal.write_entry
  commit-IsLogged db txn first second h held range₁ range₂ fits =
      let contents : Bytes =
        db.wal.contents ++ frame (serialise_transaction_commit_payload first) in
      let stored : Db bt = record db {
        wal = record { contents = contents; pos = length contents };
        mem_table = put_commands bt second db.mem_table;
      } in
      let behind : IsLogged bt (flush_if_full bt stored) = flush_if_full-IsLogged bt stored (
        logged bt db (together first) (length contents) (put_commands bt second db.mem_table) h fits
          (λ key.
            get-put_commands bt key second db.mem_table
            ∙ written-IsRangeOf key second first txn.buffered_writes _ range₂ range₁)) in
      let (s, runs, ends) =
        end_transaction-ok txn (flush_if_full bt stored) (rw (flush_if_full-locks stored) held)
          behind in
      (s, rw runs, ends)
