-- ===== src/Sstable/Open/Tests.antt =====
-- A new directory, and one flush.
use golang_db.Sstable.Table.{opened_contents}
use golang_db.Base.{◌≡◌, refl, arith, ◌∷◌, [], List, false, length, ok}
use golang_db.Base.Bytes.{cmp, IsU32, put_u32}
use golang_db.Base.Dict
use golang_db.Base.Text.{codes}
use golang_db.Memtable.{Entry}
use golang_db.Sstable.Blocks.{write_data_blocks, write_entry, encode}
use golang_db.Sstable.Index.{write_footer, write_index_block, index_entry_bytes}
use golang_db.Sstable.Table.{SsTable, new_file, write_to_file}
use golang_db.Sstable.Open.{
  Config, with_defaults, get_manifest, get_all_files, build_indexes, new_ss_table, opened,
  flush_to_disk,
}
use golang_db.Sstable.Open.Restart.{start, next, empty_disk, new_ss_table-Flushed}

abbrev pub config : Config
config = record { data_files_directory = codes "d"; block_length = 12; skip_index = false }

abbrev pub entries : List Entry
entries = record { key = 98 ∷ []; value = 1 ∷ [] } ∷ record { key = 99 ∷ []; value = 2 ∷ [] } ∷ []

abbrev pub empty_table : SsTable
empty_table = opened config (record { next_file_id = 0; file_names = [] }) [] [] ([], [])

pub new_ss_table-empty : new_ss_table config empty_disk ≡ ok empty_table
unfolding new_ss_table with_defaults get_manifest cmp opened get_all_files build_indexes
new_ss_table-empty = refl

pub fits :
    IsU32
      (length (write_to_file (new_file empty_table).1 (new_file empty_table).0 entries).0.contents)
unfolding cmp write_to_file write_data_blocks write_entry write_footer write_index_block
    index_entry_bytes encode put_u32 new_file opened opened_contents Dict.lookup
fits = omega arith

new_ss_table-Flushed_example :
    new_ss_table config (flush_to_disk empty_table entries).0
    ≡ ok (flush_to_disk empty_table entries).1
new_ss_table-Flushed_example =
    new_ss_table-Flushed config (flush_to_disk empty_table entries).0
      (flush_to_disk empty_table entries).1 refl
      (next empty_disk empty_table entries (start empty_table new_ss_table-empty)
        (λ h. cc, (λ h. cc, tt)) fits)
