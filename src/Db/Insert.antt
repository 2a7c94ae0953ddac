-- ===== src/Db/Insert.antt =====
-- insertIntoTable and updateSecondaryIndexes of db/db.go: a row and its index entries as the writes of a
-- transaction.
pub mod Stored
pub mod Refused
use golang_db.Base.{
  ℕ, ◌==◌, List, [], ◌∷◌, if◌then◌else◌, length, Error, Result, ok, err, panic, error_text, ◌>>=◌,
}
use golang_db.Base.Bytes.{Bytes}
use golang_db.Base.Text.{codes}
use golang_db.Base.Dict.{Dict}
use golang_db.Wal.{Disk}
use golang_db.Memtable.{EntryTree}
use golang_db.Db.Command.{PutCommand}
use golang_db.Db.Schema.{Column, CreateTable, SecondaryIndex}
use golang_db.Db.Locks.{Transaction}
use golang_db.Db.Database.{Db}
use golang_db.Db.Transactions.{begin, txn_put, rollback, commit}
use golang_db.Db.Rows.{Schemas, schema_of, serialise_insert_into_table_input}
use golang_db.Db.Indexes.{
  get_secondary_index_key_or_prefix, get_index_and_primary_key_column_values_in_index_sequence,
}
use golang_db.Sql.Parser.{new_parser}
use golang_db.Sql.Parser.Insert.{InsertIntoTable, parse_insert_into_table}

unfoldable pub index_key : CreateTable → InsertIntoTable → SecondaryIndex → Result Bytes
index_key table input index = do
  s ←
      get_index_and_primary_key_column_values_in_index_sequence table index.columns
        input.column_values
  ok (
      get_secondary_index_key_or_prefix input.table_name index.index_name s.column_values
        s.pk_value)

module _ (bt : EntryTree) where
  abbrev pub Session : Type 0
  Session = Transaction × Db bt

  -- A call of Put whose error is dropped.
  unfoldable pub put_unchecked : Session → Bytes → Bytes → Session
  put_unchecked s key value = elim (txn_put bt s.0 s.1 key value) [ err e ↦ s | ok s' ↦ s' ]

  -- The error, if any, comes with the writes that were made before it.
  unfoldable pub update_secondary_indexes :
      CreateTable → InsertIntoTable → List SecondaryIndex → Session → Result (Unit {0}) × Session
  update_secondary_indexes table input [] s = (ok tt, s)
  update_secondary_indexes table input (index ∷ rest) s = elim (index_key table input index) [
    | err e ↦ (err e, s)
    | ok key ↦ update_secondary_indexes table input rest (put_unchecked s key [])
  ]

  -- if err := txn.Put(...); err != nil { txn.Rollback() }
  unfoldable pub put_or_rollback : Session → Bytes → Bytes → Result Session
  put_or_rollback s key value = elim (txn_put bt s.0 s.1 key value) [
    | err e ↦ rollback bt s.0 s.1
    | ok s' ↦ ok s'
  ]

  -- A fault ends the call, and another error is a rollback.
  unfoldable pub or_rollback : Result (Unit {0}) × Session → Result Session
  or_rollback (ok u, s) = ok s
  or_rollback (err panic, s) = err panic
  or_rollback (err e, s) = rollback bt s.0 s.1

  -- The writes, behind the two tests. The commit's error is dropped. `first` and `second` are the orders
  -- in which the two loops of Commit visit the map of the writes.
  unfoldable pub insert_row :
      Disk
      → (Dict Bytes → List PutCommand)
      → (Dict Bytes → List PutCommand)
      → CreateTable
      → InsertIntoTable
      → Session
      → Bytes
      → Bytes
      → Result (Result (Unit {0}) × Db bt)
  insert_row disk first second table input s key value = do
    s₁ ← put_or_rollback s key value
    s₂ ← or_rollback (update_secondary_indexes table input table.secondary_indexes s₁)
    (committed, txn', db') ←
        commit bt disk (first s₂.0.buffered_writes) (second s₂.0.buffered_writes) s₂.0 s₂.1
    ok (ok tt, db')

  unfoldable pub insert_serialised :
      Disk
      → (Dict Bytes → List PutCommand)
      → (Dict Bytes → List PutCommand)
      → CreateTable
      → InsertIntoTable
      → Session
      → Result (Bytes × Bytes)
      → Result (Result (Unit {0}) × Db bt)
  unfolding insert_row
  insert_serialised disk first second table input s (err e) = ok (err e, s.1)
  insert_serialised disk first second table input s (ok (key, value)) =
      insert_row disk first second table input s key value

  -- The outer error is a run-time fault.
  unfoldable pub insert_into_table :
      Disk
      → (Dict Bytes → List PutCommand)
      → (Dict Bytes → List PutCommand)
      → Schemas
      → Db bt
      → InsertIntoTable
      → Result (Result (Unit {0}) × Db bt)
  unfolding insert_serialised
  insert_into_table disk first second schemas db input =
      let s = begin bt db in
      let table = schema_of schemas input.table_name in
      if length input.column_values == length table.column_details
      then insert_serialised disk first second table input s
          (serialise_insert_into_table_input schemas input)
      else ok (err (error_text (codes "INSERT INTO requires all columns to be present. ")), s.1)

  -- InsertIntoTable, with the rounds of the parser's loop.
  unfoldable pub insert_query :
      ℕ
      → Disk
      → (Dict Bytes → List PutCommand)
      → (Dict Bytes → List PutCommand)
      → Schemas
      → Db bt
      → Bytes
      → Result (Result (Unit {0}) × Db bt)
  insert_query fuel disk first second schemas db query =
      elim (parse_insert_into_table fuel (new_parser query)) [
        | err e ↦ ok (err e, db)
        | ok input ↦ insert_into_table disk first second schemas db input
      ]
