-- ===== src/CommandLine/Tests.antt =====
-- Lines over a database that is empty.
use golang_db.Base.{◌∷◌, [], Error, Result, ok, false}
use golang_db.Base.Bytes.{Bytes}
use golang_db.Base.Dict
use golang_db.Base.Text.{codes}
use golang_db.Memtable
use golang_db.Memtable.{new_memtable}
use golang_db.Memtable.Model.{sorted_lists}
use golang_db.Sstable.Blocks
use golang_db.Sstable.Table.{SsTable, Manifest}
use golang_db.Db.Database
use golang_db.Db.Database.{Db}

abbrev manifest : Manifest
manifest = record { next_file_id = 1; file_names = [] }

abbrev no_files : SsTable
no_files = record {
  data_files_directory = 100 ∷ [];
  first_level_files = [];
  index_offsets = [];
  block_length = 12;
  index_blocks = [];
  manifest = manifest;
  skip_index = false;
  compacting = false;
  saved = manifest;
  on_disk = [];
}

abbrev empty_db : Db sorted_lists
empty_db = record {
  wal = record { contents = []; pos = 0 };
  mem_table = new_memtable sorted_lists;
  ss_table = no_files;
  transaction_manager = record { next_transaction_id = 1; key_vs_locks_acquired_map = [] };
  compactions = 0;
}

abbrev ignored : Db sorted_lists → Bytes → Result (Unit {0}) × Db sorted_lists
ignored db query = (ok tt, db)

abbrev no_text : Error → Bytes
no_text e = []

abbrev key : Bytes
key = codes "k"

abbrev value : Bytes
value = codes "a b"
