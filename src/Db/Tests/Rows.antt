-- ===== src/Db/Tests/Rows.antt =====
-- Rows that are inserted into a table with a secondary index, and selected.
use golang_db.Base.{ℕ, ◌≤◌, length}
use golang_db.Sstable.Table.{opened_contents}
use golang_db.Base.{◌≡◌, refl, inr, false, List, [], ◌∷◌, arith, ok, err, write_locked}
use golang_db.Base.Bytes.{Bytes, cmp, put_u32, has_prefix}
use golang_db.Base.Text.{codes}
use golang_db.Base.Decimal.{digits, decimal}
use golang_db.Base.Integers.{atoi, magnitude, digits_value, to_u32}
use golang_db.Base.Dict
use golang_db.Base.Dict.{Dict}
use golang_db.Wal.{works}
use golang_db.Btree.{insert}
use golang_db.Memtable
use golang_db.Memtable.{new_memtable, iterate, should_flush}
use golang_db.Memtable.Model.{sorted_lists}
use golang_db.Sstable.Blocks.{encode, write_data_blocks}
use golang_db.Sstable.Blocks
use golang_db.Sstable.Index.{write_footer, write_index_block, index_entry_bytes}
use golang_db.Sstable.Table.{new_file, write_to_file}
use golang_db.Db.Command.{PutCommand}
use golang_db.Db.Schema.{Column, CreateTable, SecondaryIndex}
use golang_db.Db.Locks.{LockTable, try_acquire_write_lock}
use golang_db.Db.Database.{Db, get, put_commands}
use golang_db.Db.Database.Reads.{IsFlushable}
use golang_db.Db.Transactions.{begin, txn_put}
use golang_db.Db.Transactions.Commit.{IsRangeOf}
use golang_db.Db.Rows.{
  Schemas, schema_of, bool_byte, serialise_value, column_at, serialise_values,
  serialise_insert_into_table_input, deserialize_row_values,
}
use golang_db.Db.Rows.RoundTrip.{AreStoredAs, deserialize-serialise_row}
use golang_db.Db.Indexes.{
  colon_values, get_secondary_index_key_or_prefix, value_at, add_if_named, collect_column,
  collect_columns, check_values, get_index_and_primary_key_column_values_in_index_sequence,
}
use golang_db.Db.Indexes.Prefixes.{starts_with, index_prefix-starts_with}
use golang_db.Db.Insert.{index_key, put_unchecked, update_secondary_indexes, insert_into_table}
use golang_db.Db.Insert.Stored.{row_writes}
use golang_db.Db.Insert.Refused.{insert_into_table-refused}
use golang_db.Db.Conditions.{col_position, filter_query_conditions}
use golang_db.Db.Conditions.Filter.{
  Comparison, Condition, keep, satisfies, filter_query_conditions-keep,
}
use golang_db.Db.Select.{select_from_table}
use golang_db.Db.Select.Pointed.{pointed_query}
use golang_db.Db.Select.Inserted.{
  IsInsertable, inserted_writes, select_from_table-insert_into_table,
}
use golang_db.Db.Tests.{no_files, with_table}
use golang_db.Sql.Parser.Insert.{InsertIntoTable}
use golang_db.Sql.Parser.Select.{QueryCondition}

abbrev id : Column
id = record { column_name = codes "id"; data_type = 0 }

abbrev paid : Column
paid = record { column_name = codes "paid"; data_type = 2 }

abbrev by_paid : SecondaryIndex
by_paid = record { columns = codes "paid" ∷ []; index_name = codes "x" }

abbrev orders : List SecondaryIndex → CreateTable
orders indexes = record {
  table_name = codes "t";
  column_details = id ∷ paid ∷ [];
  primary_key_column_position = 0;
  secondary_indexes = indexes;
}

abbrev schemas : List SecondaryIndex → Schemas
schemas indexes = (codes "t", orders indexes) ∷ []

abbrev row : List Bytes
row = codes "7" ∷ codes "1" ∷ []

abbrev input : InsertIntoTable
input = record { table_name = codes "t"; column_values = row }

abbrev key : Bytes
key = codes "t:7"

abbrev value : Bytes
value = 0 ∷ 0 ∷ 0 ∷ 7 ∷ 1 ∷ []

row-AreStoredAs : AreStoredAs (id ∷ paid ∷ []) row row
unfolding decimal digits
row-AreStoredAs = ((7, omega arith, refl, refl), ((inr refl, refl), tt))

deserialize-serialise_row_example :
    (buf : Bytes) × (serialise_insert_into_table_input (schemas []) input ≡ ok (key, buf))
    × ((spare : ℕ → ℕ) → deserialize_row_values spare (schemas []) (codes "t") buf ≡ ok row)
    × (length input.column_values ≤ length buf)
unfolding schema_of Dict.lookup cmp
deserialize-serialise_row_example =
    deserialize-serialise_row (schemas []) input row (codes "7") row-AreStoredAs refl

serialised :
    (indexes : List SecondaryIndex)
    → serialise_insert_into_table_input (schemas indexes) input ≡ ok (key, value)
unfolding serialise_insert_into_table_input serialise_values serialise_value column_at schema_of
    Dict.lookup cmp atoi magnitude digits_value to_u32 bool_byte put_u32
serialised indexes = refl

abbrev to_commands : Dict Bytes → List PutCommand
to_commands [] = []
to_commands ((k, v) ∷ d) = record { key = k; value = v } ∷ to_commands d

abbrev index_entry : Bytes
index_entry = codes "index:t:x:1:7"

abbrev writes : Dict Bytes
writes = (key, value) ∷ (index_entry, []) ∷ []

index_key_lem : index_key (orders (by_paid ∷ [])) input by_paid ≡ ok index_entry
unfolding index_key get_index_and_primary_key_column_values_in_index_sequence collect_columns
    collect_column add_if_named value_at check_values get_secondary_index_key_or_prefix colon_values
    cmp
index_key_lem = refl

writes_lem :
    inserted_writes sorted_lists to_commands to_commands
      (schemas (by_paid ∷ []))
      (with_table [])
      input
      (codes "7")
      value
    ≡ writes
unfolding row_writes update_secondary_indexes put_unchecked txn_put begin try_acquire_write_lock
    schema_of Dict.lookup Dict.put cmp index_key
    get_index_and_primary_key_column_values_in_index_sequence collect_columns collect_column
    add_if_named value_at check_values get_secondary_index_key_or_prefix colon_values
writes_lem = refl

writes-IsRangeOf : IsRangeOf (to_commands writes) writes
unfolding Dict.lookup cmp
writes-IsRangeOf = record { once = (refl, (refl, tt)); same = λ k. refl }

writes-IsFlushable :
    IsFlushable sorted_lists no_files
      (put_commands sorted_lists (to_commands writes) (new_memtable sorted_lists))
unfolding put_commands Memtable.put new_memtable iterate insert new_file opened_contents Dict.lookup
    write_to_file write_data_blocks cmp Blocks.write_entry write_footer write_index_block
    index_entry_bytes encode put_u32
writes-IsFlushable = record {
  aligned = record { indexed = refl; blocks = refl; offsets = refl };
  new = refl;
  keyed = (λ h. cc, (λ h. cc, tt));
  fits = omega arith;
}

insertable :
    IsInsertable sorted_lists to_commands to_commands
      (schemas (by_paid ∷ []))
      (with_table [])
      input
      (codes "7")
      value
unfolding schema_of Dict.lookup cmp
insertable = record {
  unlocked = refl;
  others = ((index_entry, index_key_lem, λ h. cc), tt);
  range = rw writes_lem writes-IsRangeOf;
  flushable = rw writes_lem writes-IsFlushable;
}

-- Each range visits the entries in the order of the list.
abbrev in_order : {A : Type 0} → List A → List A
in_order l = l

abbrev no_spare : ℕ → ℕ
no_spare n = 0

select_from_table-insert_into_table_example :
    (db' : Db sorted_lists) × (insert_into_table sorted_lists works to_commands to_commands
        (schemas (by_paid ∷ []))
        (with_table [])
        input
      ≡ ok (ok tt, db'))
    × (select_from_table sorted_lists no_spare in_order in_order
          (schemas (by_paid ∷ []))
          db'
          (pointed_query (codes "t") (codes "*" ∷ []) (codes "id") (codes "7"))
        ≡ ok (row ∷ []))
unfolding Dict.lookup cmp
select_from_table-insert_into_table_example =
    select_from_table-insert_into_table sorted_lists to_commands to_commands no_spare in_order
      in_order (schemas (by_paid ∷ [])) (with_table []) (orders (by_paid ∷ [])) id (codes "*" ∷ [])
      input row (codes "7") value refl refl (λ h. cc) row-AreStoredAs refl
      (serialised (by_paid ∷ [])) insertable

-- Another transaction writes the row.
abbrev others_lock : LockTable
others_lock = (key, record { writer = 1; readers = [] }) ∷ []

refused :
    try_acquire_write_lock (begin sorted_lists (with_table others_lock)).0 key others_lock
    ≡ err write_locked
unfolding try_acquire_write_lock begin Dict.lookup cmp
refused = refl

not_full : should_flush sorted_lists (new_memtable sorted_lists) ≡ false
unfolding should_flush new_memtable
not_full = refl

insert_into_table-refused_example :
    (db' : Db sorted_lists) × (insert_into_table sorted_lists works to_commands to_commands
        (schemas [])
        (with_table others_lock)
        input
      ≡ ok (ok tt, db'))
    × ((j : Bytes) → get sorted_lists db' j ≡ get sorted_lists (with_table others_lock) j)
unfolding schema_of Dict.lookup cmp
insert_into_table-refused_example =
    insert_into_table-refused sorted_lists to_commands to_commands (schemas [])
      (with_table others_lock) input key value write_locked refl (serialised []) refused refl refl
      not_full

abbrev query : List QueryCondition
query =
    record { column_name = codes "paid"; query_type = codes "="; value = codes "1" }
    ∷ record { column_name = codes "id"; query_type = codes ">"; value = codes "2" }
    ∷ []

abbrev conditions : List Condition
conditions =
    record { position = 1; comparison = Comparison.equals; operand = codes "1" }
    ∷ record { position = 0; comparison = Comparison.gt; operand = codes "2" }
    ∷ []

abbrev rows : List (List Bytes)
rows = row ∷ (codes "1" ∷ codes "1" ∷ []) ∷ []

filter_query_conditions-keep_example :
    filter_query_conditions (id ∷ paid ∷ []) query [] rows ≡ ok (keep (satisfies conditions) rows)
unfolding col_position cmp
filter_query_conditions-keep_example =
    filter_query_conditions-keep (id ∷ paid ∷ []) query conditions rows
      ((refl, refl, refl), ((refl, refl, refl), tt))
      (
        ((codes "1", refl), ((codes "1", refl), tt)),
        (((codes "7", refl), ((codes "1", refl), tt)), tt),
      )

-- The values of two conditions, not in the order of the index.
index_prefix-starts_with_example :
    has_prefix
      (get_secondary_index_key_or_prefix
        (codes "t")
        (codes "x")
        (codes "a" ∷ codes "b" ∷ [])
        (codes "7"))
      (get_secondary_index_key_or_prefix (codes "t") (codes "x") (codes "b" ∷ codes "a" ∷ []) [])
    ≡ starts_with (codes "a" ∷ codes "b" ∷ []) (codes "b" ∷ codes "a" ∷ [])
index_prefix-starts_with_example =
    index_prefix-starts_with (codes "t") (codes "x") (codes "a" ∷ codes "b" ∷ [])
      (codes "b" ∷ codes "a" ∷ []) (codes "7") ((omega arith, tt), ((omega arith, tt), tt))
      ((omega arith, tt), ((omega arith, tt), tt)) (omega arith, tt) (λ h. cc)
