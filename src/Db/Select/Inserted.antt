-- ===== src/Db/Select/Inserted.antt =====
-- A row that INSERT has stored is what SELECT by its primary key gives.
use golang_db.Base.{◌≤◌}
use mathlib.Core.Path.{subst}
use golang_db.Base.{
  ℕ, ◌≡◌, ◌≢◌, refl, sym, ◌==◌, true, some, List, [], ◌∷◌, ◌++◌, arith, length, get_elem?, ok,
}
use golang_db.Base.Bytes.{Bytes}
use golang_db.Base.Dict
use golang_db.Base.Dict.{Dict}
use golang_db.Wal.{works}
use golang_db.Memtable.{EntryTree}
use golang_db.Db.Command.{PutCommand}
use golang_db.Db.Schema.{Column, CreateTable}
use golang_db.Db.Locks.{no_locks}
use golang_db.Db.Locks.Exclusion.{locks_on}
use golang_db.Db.Locks.Writes.{write_lock-free}
use golang_db.Db.Database.{Db, get, put_commands}
use golang_db.Db.Database.Reads.{IsFlushable}
use golang_db.Db.Transactions.{begin, with_locks}
use golang_db.Db.Transactions.Commit.{IsRangeOf}
use golang_db.Db.Rows.{
  Schemas, schema_of, serialise_insert_into_table_input, deserialize_row_values,
}
use golang_db.Db.Rows.RoundTrip.{AreStoredAs, deserialize-serialise_row}
use golang_db.Db.Insert.{insert_serialised, insert_into_table}
use golang_db.Db.Insert.Stored.{HasOtherKeys, row_writes, insert_row-stored}
use golang_db.Db.Select.{select_from_table}
use golang_db.Sql.Parser.Insert.{InsertIntoTable}
use golang_db.Db.Select.Pointed.{pointed_query, row_read, select-pointed}

AreStoredAs-length :
    (cols : List Column) (vals stored : List Bytes)
    → AreStoredAs cols vals stored
    → length vals ≡ length cols
AreStoredAs-length [] [] stored h = refl
AreStoredAs-length [] (v ∷ vals) stored h = elim h [ ]
AreStoredAs-length (c ∷ cols) [] stored h = elim h [ ]
AreStoredAs-length (c ∷ cols) (v ∷ vals) [] h = elim h [ ]
AreStoredAs-length (c ∷ cols) (v ∷ vals) (w ∷ stored) (h, more) =
    omega (arith, AreStoredAs-length cols vals stored more)

filled :
    (vals : List Bytes) (i : ℕ) (v buf : Bytes)
    → get_elem? vals i ≡ some v
    → length vals ≤ length buf
    → buf ≢ []
filled [] i v buf there long none_left = cc
filled (w ∷ vals) i v [] there long none_left = absurd (omega arith)
filled (w ∷ vals) i v (b ∷ buf) there long none_left = cc

schema_of_lem :
    (schemas : Schemas) (name : Bytes) (table : CreateTable)
    → Dict.lookup name schemas ≡ some table
    → schema_of schemas name ≡ table
unfolding schema_of
schema_of_lem schemas name table h = rw h refl

abbrev pub row_key : InsertIntoTable → Bytes → Bytes
row_key input pk = input.table_name ++ (58 ∷ pk)

module _ (bt : EntryTree) (first second : Dict Bytes → List PutCommand) where
  -- The writes of the row and of its index entries.
  abbrev pub inserted_writes : Schemas → Db bt → InsertIntoTable → Bytes → Bytes → Dict Bytes
  inserted_writes schemas db input pk value =
      row_writes bt (schema_of schemas input.table_name) input (begin bt db) (row_key input pk)
        value

  -- Nobody has locked the row; the keys of the index entries are others; Commit visits the writes as a
  -- range over a map does; and a flush of the memtable behind them is one that Get can read.
  pub record IsInsertable (schemas : Schemas) (db : Db bt) (input : InsertIntoTable)
      (pk value : Bytes) : Type 0 where
    pub unlocked :
        locks_on (row_key input pk) db.transaction_manager.key_vs_locks_acquired_map ≡ no_locks
    pub others :
        HasOtherKeys bt
          (schema_of schemas input.table_name)
          input
          (row_key input pk)
          (schema_of schemas input.table_name).secondary_indexes
    pub range :
        IsRangeOf
          (second (inserted_writes schemas db input pk value))
          (inserted_writes schemas db input pk value)
    pub flushable :
        IsFlushable bt db.ss_table
          (put_commands bt (second (inserted_writes schemas db input pk value)) db.mem_table)

  insert_into_table-stored :
      (schemas : Schemas) (db : Db bt) (input : InsertIntoTable) (stored : List Bytes)
      (pk value : Bytes)
      → AreStoredAs (schema_of schemas input.table_name).column_details input.column_values stored
      → serialise_insert_into_table_input schemas input ≡ ok (row_key input pk, value)
      → value ≢ []
      → IsInsertable schemas db input pk value
      → (db' : Db bt) × (insert_into_table bt works first second schemas db input ≡ ok (ok tt, db'))
        × (get bt db' (row_key input pk) ≡ ok value)
  unfolding insert_into_table insert_serialised begin with_locks
  insert_into_table-stored schemas db input stored pk value fits serialised some_bytes h =
      let table = schema_of schemas input.table_name in
      let lengths = AreStoredAs-length table.column_details input.column_values stored fits in
      let same_length : (length input.column_values == length table.column_details) ≡ true =
        ground (arith, lengths) in
      let txn = (begin bt db).0 in
      let locks = db.transaction_manager.key_vs_locks_acquired_map in
      let (s, gives) = write_lock-free txn (row_key input pk) locks h.unlocked in
      let (db', runs, there) =
        insert_row-stored bt first second ((begin bt db).1) table input txn (s.0) locks (s.1)
          (row_key input pk) value tt gives h.others h.range h.flushable some_bytes in
      (db', rw (same_length, serialised) runs, there)

-- Behind an INSERT, a SELECT by the primary key gives the row, as it is stored: this holds for a
-- table with a schema whose primary key's column has a name, and a row whose values fit its columns (an
-- INT loses what 32 bits do not hold); where the disk takes the commit, nobody has locked the row, the
-- keys of the row's index entries can be made and are not the row's, and the loops of the commit visit
-- each write once; the table of files uses its index and its lists have the same length, the file that NewFile would
-- open is empty or new, no key of the memtable behind the commit is empty, and a file of its entries is
-- shorter than 2 ^ 32 bytes. `value` is the row's bytes. The spare capacity of buffers may be any.
pub select_from_table-insert_into_table :
    (bt : EntryTree) (first second : Dict Bytes → List PutCommand) (spare : ℕ → ℕ)
    (visit : Dict Bytes → Dict Bytes) (visit_set : List Bytes → List Bytes) (schemas : Schemas)
    (db : Db bt) (table : CreateTable) (col : Column) (columns : List Bytes)
    (input : InsertIntoTable) (stored : List Bytes) (pk value : Bytes)
    → Dict.lookup input.table_name schemas ≡ some table
    → get_elem? table.column_details table.primary_key_column_position ≡ some col
    → col.column_name ≢ []
    → AreStoredAs table.column_details input.column_values stored
    → get_elem? input.column_values table.primary_key_column_position ≡ some pk
    → serialise_insert_into_table_input schemas input ≡ ok (row_key input pk, value)
    → IsInsertable bt first second schemas db input pk value
    → (db' : Db bt) × (insert_into_table bt works first second schemas db input ≡ ok (ok tt, db'))
      × (select_from_table bt spare visit visit_set schemas db'
            (pointed_query input.table_name columns col.column_name pk)
          ≡ ok (stored ∷ []))
select_from_table-insert_into_table bt first second spare visit visit_set schemas db table col
      columns input stored pk value known key named fits there serialised h =
    let schema : schema_of schemas input.table_name ≡ table =
      schema_of_lem schemas input.table_name table known in
    let fits' : AreStoredAs (schema_of schemas input.table_name).column_details input.column_values
        stored =
      subst (λ (t : CreateTable). AreStoredAs t.column_details input.column_values stored)
        (sym schema) fits in
    let there' : get_elem? input.column_values
          (schema_of schemas input.table_name).primary_key_column_position
        ≡ some pk =
      subst
        (λ (t : CreateTable). get_elem? input.column_values t.primary_key_column_position ≡ some pk)
        (sym schema) there in
    let (buf, e, read, long) = deserialize-serialise_row schemas input stored pk fits' there' in
    let same : buf ≡ value = cc in
    let read' : deserialize_row_values spare schemas input.table_name value ≡ ok stored =
      rw same at (read spare) in
    let some_bytes =
      filled input.column_values (schema_of schemas input.table_name).primary_key_column_position pk
        value there' (rw same at long) in
    let (db', runs, held) =
      insert_into_table-stored bt first second schemas db input stored pk value fits' serialised
        some_bytes h in
    (
      db',
      runs,
      select-pointed bt spare visit visit_set schemas db' table col columns input.table_name pk
          stored known key named
          (row_read bt spare visit visit_set schemas db' input.table_name pk value stored held
            read'),
    )
