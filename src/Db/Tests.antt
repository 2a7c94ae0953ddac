-- ===== src/Db/Tests.antt =====
-- Runs of the database and of a transaction, over a memtable that is a sorted list.
use golang_db.Sstable.Table.{opened_contents}
mod Rows
mod Tables
use golang_db.Base.{◌≤◌, ◌≡◌, refl, false, List, [], ◌∷◌, arith, length, ok}
use golang_db.Base.Bytes.{Bytes, cmp, put_u32}
use golang_db.Base.Dict
use golang_db.Wal.{works, max_payload}
use golang_db.Btree.{find, insert}
use golang_db.Memtable
use golang_db.Memtable.{Memtable, new_memtable, iterate}
use golang_db.Memtable.Model.{sorted_lists}
use golang_db.Sstable.Blocks.{encode, write_data_blocks}
use golang_db.Sstable.Blocks
use golang_db.Sstable.Index.{write_footer, write_index_block, index_entry_bytes}
use golang_db.Sstable.Table.{SsTable, Manifest, new_file, write_to_file}
use golang_db.Db.Command.{
  PutCommand, serialise_put_command, append_length_prefixed_string, serialise_writes,
  serialise_transaction_commit_payload,
}
use golang_db.Db.Locks.{LockTable, Transaction, try_acquire_write_lock}
use golang_db.Db.Locks.Held.{AllHeld}
use golang_db.Db.Database.{Db, get, put, recover}
use golang_db.Db.Database.Writes.{IsLogged, recover-IsLogged, put-IsLogged}
use golang_db.Db.Database.Reads.{IsFlushable, get-put_lem}
use golang_db.Db.Transactions.{txn_put, txn_get, commit}
use golang_db.Db.Transactions.Commit.{IsRangeOf, commit-IsLogged}
use golang_db.Db.Transactions.Reads.{txn_get-txn_put}

abbrev k : Bytes
k = 107 ∷ []

abbrev v : Bytes
v = 118 ∷ 119 ∷ []

abbrev manifest : Manifest
manifest = record { next_file_id = 1; file_names = [] }

abbrev no_files : SsTable
no_files = record {
  data_files_directory = 100 ∷ [];
  first_level_files = [];
  index_offsets = [];
  block_length = 12;
  index_blocks = [];
  manifest = manifest;
  skip_index = false;
  compacting = false;
  saved = manifest;
  on_disk = [];
}

-- A transaction that has written the key, and the table of locks.
abbrev writing : Transaction
writing = record { id = 1; buffered_writes = (k, v) ∷ []; lock_acquired_keys = k ∷ [] }

abbrev locked : LockTable
locked = (k, record { writer = 1; readers = [] }) ∷ []

abbrev with_table : LockTable → Db sorted_lists
with_table locks = record {
  wal = record { contents = []; pos = 0 };
  mem_table = new_memtable sorted_lists;
  ss_table = no_files;
  transaction_manager = record { next_transaction_id = 2; key_vs_locks_acquired_map = locks };
  compactions = 0;
}

new-IsLogged : (locks : LockTable) → IsLogged sorted_lists (with_table locks)
unfolding Memtable.get new_memtable find
new-IsLogged locks = record { log = []; contents = refl; readable = tt; held = λ key. refl }

put_fits : length (serialise_put_command k v) ≤ max_payload
unfolding serialise_put_command append_length_prefixed_string put_u32
put_fits = omega arith

abbrev one_put : Db sorted_lists
one_put = (put sorted_lists works (with_table []) k v).1

put-IsLogged_example :
    ((put sorted_lists works (with_table []) k v).0 ≡ ok tt) × IsLogged sorted_lists one_put
put-IsLogged_example = put-IsLogged sorted_lists (with_table []) k v (new-IsLogged []) put_fits

flushable :
    IsFlushable sorted_lists no_files (Memtable.put sorted_lists (new_memtable sorted_lists) k v)
unfolding Memtable.put new_memtable iterate insert new_file opened_contents Dict.lookup
    write_to_file write_data_blocks cmp Blocks.write_entry write_footer write_index_block
    index_entry_bytes encode put_u32
flushable = record {
  aligned = record { indexed = refl; blocks = refl; offsets = refl };
  new = refl;
  keyed = (λ h. cc, tt);
  fits = omega arith;
}

get-put_lem_example : get sorted_lists one_put k ≡ ok v
get-put_lem_example = get-put_lem sorted_lists (with_table []) k v flushable (λ h. cc)

abbrev one_write : List PutCommand
one_write = record { key = k; value = v } ∷ []

one_write-IsRangeOf : IsRangeOf one_write ((k, v) ∷ [])
unfolding Dict.lookup
one_write-IsRangeOf = record { once = (refl, tt); same = λ key. refl }

commit_fits : length (serialise_transaction_commit_payload one_write) ≤ max_payload
unfolding serialise_transaction_commit_payload serialise_writes append_length_prefixed_string
    put_u32
commit_fits = omega arith

held : AllHeld writing locked
unfolding Dict.lookup cmp
held = ((record { writer = 1; readers = [] }, refl), tt)

commit-IsLogged_example :
    (s : Transaction × Db sorted_lists) × (commit sorted_lists works one_write one_write writing
        (with_table locked)
      ≡ ok (ok tt, s.0, s.1))
    × IsLogged sorted_lists s.1
commit-IsLogged_example =
    commit-IsLogged sorted_lists (with_table locked) writing one_write one_write
      (new-IsLogged locked) held one_write-IsRangeOf one_write-IsRangeOf commit_fits

abbrev idle : Transaction
idle = record { id = 1; buffered_writes = []; lock_acquired_keys = [] }

buffers : txn_put sorted_lists idle (with_table []) k v ≡ ok (writing, with_table locked)
unfolding txn_put try_acquire_write_lock Dict.lookup Dict.put
buffers = refl

txn_get-txn_put_example :
    ((s : Transaction × Db sorted_lists) × (txn_get sorted_lists writing (with_table locked) k
        ≡ ok (ok v, s.0, s.1)))
    × ((j : Bytes) → get sorted_lists (with_table locked) j ≡ get sorted_lists (with_table []) j)
txn_get-txn_put_example =
    txn_get-txn_put sorted_lists idle writing (with_table []) (with_table locked) k v buffers
