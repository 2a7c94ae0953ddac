-- ===== src/Db/Insert/Refused.antt =====
-- insertIntoTable where the lock on the row is refused.
use golang_db.Base.{◌≡◌, refl, ◌∙◌, ◌==◌, true, false, List, [], length, Error, ok, err, arith}
use golang_db.Base.Bytes.{Bytes}
use golang_db.Base.Dict.{Dict}
use golang_db.Wal.{works}
use golang_db.Memtable.{EntryTree, should_flush}
use golang_db.Db.Command.{PutCommand}
use golang_db.Db.Schema.{CreateTable}
use golang_db.Db.Locks.{LockTable, Transaction, try_acquire_write_lock}
use golang_db.Db.Database.{Db, get, put_commands, flush_if_full}
use golang_db.Db.Transactions.{begin, txn_put, rollback, with_locks}
use golang_db.Db.Transactions.Sessions.{txn_put-err, rollback-unlocked, committed, commit-get}
use golang_db.Db.Rows.{Schemas, schema_of, serialise_insert_into_table_input}
use golang_db.Db.Insert.{
  Session, update_secondary_indexes, put_or_rollback, or_rollback, insert_row, insert_serialised,
  insert_into_table,
}
use golang_db.Sql.Parser.Insert.{InsertIntoTable}

module _ (bt : EntryTree) where
  put_or_rollback-err :
      (s s' : Session bt) (key value : Bytes) (e : Error)
      → txn_put bt s.0 s.1 key value ≡ err e
      → rollback bt s.0 s.1 ≡ ok s'
      → put_or_rollback bt s key value ≡ ok s'
  unfolding put_or_rollback
  put_or_rollback-err s s' key value e h h' = rw (h, put_or_rollback) h'

  update-none :
      (table : CreateTable) (input : InsertIntoTable) (s : Session bt)
      → table.secondary_indexes ≡ []
      → or_rollback bt (update_secondary_indexes bt table input table.secondary_indexes s) ≡ ok s
  unfolding update_secondary_indexes or_rollback
  update-none table input s h = rw h refl

  -- A commit without writes leaves a memtable that is not full as it was.
  get-nothing_committed :
      (db : Db bt) (locks : LockTable) (first second : List PutCommand) (j : Bytes)
      → second ≡ []
      → should_flush bt db.mem_table ≡ false
      → get bt (flush_if_full bt (with_locks bt (committed bt db first second) locks)) j
        ≡ get bt db j
  unfolding flush_if_full put_commands with_locks get
  get-nothing_committed db locks first second j none_second small = rw (none_second, small) refl

  -- Where the lock on the row is refused, for a table without secondary indexes, a memtable that is not
  -- full and a row that can be stored, InsertIntoTable returns no error, and what every key reads
  -- is what it read before.
  pub insert_into_table-refused :
      (first second : Dict Bytes → List PutCommand) (schemas : Schemas) (db : Db bt)
      (input : InsertIntoTable) (key value : Bytes) (e : Error)
      → length input.column_values ≡ length (schema_of schemas input.table_name).column_details
      → serialise_insert_into_table_input schemas input ≡ ok (key, value)
      → try_acquire_write_lock (begin bt db).0 key db.transaction_manager.key_vs_locks_acquired_map
        ≡ err e
      → (schema_of schemas input.table_name).secondary_indexes ≡ []
      → second [] ≡ []
      → should_flush bt db.mem_table ≡ false
      → (db' : Db bt) × (insert_into_table bt works first second schemas db input ≡ ok (ok tt, db'))
        × ((j : Bytes) → get bt db' j ≡ get bt db j)
  unfolding insert_into_table insert_serialised insert_row begin with_locks get
  insert_into_table-refused first second schemas db input key value e lengths serialised refused
        plain none_second small =
      let table = schema_of schemas input.table_name in
      let same_length : (length input.column_values == length table.column_details) ≡ true =
        ground (arith, lengths) in
      let db₁ = (begin bt db).1 in
      let id = db.transaction_manager.next_transaction_id in
      let locks = db.transaction_manager.key_vs_locks_acquired_map in
      let txn : Transaction = record { id = id; buffered_writes = []; lock_acquired_keys = [] } in
      let s : Session bt = (txn, db₁) in
      let puts : put_or_rollback bt s key value ≡ ok s =
        put_or_rollback-err s s key value e (txn_put-err bt db₁ txn locks key value e refused)
          (rollback-unlocked bt db₁ id [] locks) in
      let (s', commits, behind) = commit-get bt db₁ txn locks (first []) (second []) tt in
      (
        s'.1,
        rw (same_length, serialised, puts, update-none table input s plain, commits) refl,
        λ j. behind j ∙ get-nothing_committed db₁ locks (first []) (second []) j none_second small,
      )
