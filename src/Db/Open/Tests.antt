-- ===== src/Db/Open/Tests.antt =====
-- A database with a file and with one write in the log.
use golang_db.Sstable.Table.{opened_contents}
use golang_db.Base.{◌≡◌, refl, arith, [], ◌++◌, ok, ◌≤◌, length}
use golang_db.Base.Bytes.{Bytes, cmp, put_u32}
use golang_db.Base.Text.{codes}
use golang_db.Base.Dict
use golang_db.Btree.{find, insert}
use golang_db.Wal.{max_payload, frame}
use golang_db.Memtable
use golang_db.Memtable.{new_memtable}
use golang_db.Memtable.Laws.{get-put}
use golang_db.Memtable.Model.{sorted_lists}
use golang_db.Sstable.Blocks.{write_data_blocks, write_entry, encode}
use golang_db.Sstable.Search.{get_lower_bound}
use golang_db.Sstable.Table
use golang_db.Sstable.Table.{SsTable, new_file, write_to_file, write, get_files, get_from_file, at}
use golang_db.Sstable.Open.{Disk, flush_to_disk, opened}
use golang_db.Sstable.Open.Restart.{start, next, empty_disk}
use golang_db.Sstable.Open.Tests.{config, entries, empty_table, new_ss_table-empty, fits}
use golang_db.Db.Command.{PutCommand, serialise_put_command, append_length_prefixed_string}
use golang_db.Db.Database.{Db, get}
use golang_db.Db.Database.Replay.{single, payload}
use golang_db.Db.Database.Writes.{IsLogged, logged}
use golang_db.Db.Tables.{get_table_name_vs_schema_map}
use golang_db.Db.Open.{new_db}
use golang_db.Db.Open.Restart.{new_db-IsLogged}

abbrev flushed_table : SsTable
flushed_table = (flush_to_disk empty_table entries).1

abbrev disk : Disk
disk = (flush_to_disk empty_table entries).0

abbrev one_put : PutCommand
one_put = record { key = codes "k"; value = codes "vw" }

abbrev before : Db sorted_lists
before = record {
  wal = record { contents = []; pos = 0 };
  mem_table = new_memtable sorted_lists;
  ss_table = flushed_table;
  transaction_manager = record { next_transaction_id = 2; key_vs_locks_acquired_map = [] };
  compactions = 0;
}

abbrev db : Db sorted_lists
db = record before {
  wal = record { contents = [] ++ frame (payload (single one_put)); pos = 0 };
  mem_table = Memtable.put sorted_lists (new_memtable sorted_lists) one_put.key one_put.value;
}

before-IsLogged : IsLogged sorted_lists before
unfolding Memtable.get new_memtable find
before-IsLogged = record { log = []; contents = refl; readable = tt; held = λ key. refl }

put_fits : length (serialise_put_command one_put.key one_put.value) ≤ max_payload
unfolding serialise_put_command append_length_prefixed_string put_u32
put_fits = omega arith

db-IsLogged : IsLogged sorted_lists db
db-IsLogged =
    logged sorted_lists before (single one_put) 0
      (Memtable.put sorted_lists (new_memtable sorted_lists) one_put.key one_put.value)
      before-IsLogged put_fits
      (get-put sorted_lists (new_memtable sorted_lists) one_put.key one_put.value)

no_tables : get_table_name_vs_schema_map sorted_lists db ≡ ok []
unfolding get_table_name_vs_schema_map get Memtable.get Memtable.put new_memtable find insert cmp
    flush_to_disk opened opened_contents new_file write write_to_file write_data_blocks write_entry
    encode get_files get_from_file Table.get at get_lower_bound Dict.lookup Table.get_from_block
    put_u32
no_tables = refl

new_db-IsLogged_example :
    (db' : Db sorted_lists) × (new_db sorted_lists config disk db.wal.contents ≡ ok ([], db'))
    × ((key : Bytes) → get sorted_lists db' key ≡ get sorted_lists db key)
new_db-IsLogged_example =
    new_db-IsLogged sorted_lists config disk db [] refl db-IsLogged
      (next empty_disk empty_table entries (start empty_table new_ss_table-empty)
        (λ h. cc, (λ h. cc, tt)) fits)
      no_tables
