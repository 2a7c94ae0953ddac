-- ===== src/Sstable/Tests.antt =====
-- Runs of sstable/: two entries in blocks, an index read back, a search, and reads of a table.
use golang_db.Base.{ℕ, none}
use golang_db.Base.{
  ◌≡◌, refl, false, List, [], ◌∷◌, ◌++◌, arith, length, ok, err, datablock_corrupted,
}
use golang_db.Base.Bytes.{Bytes, IsU32, cmp, put_u32}
use golang_db.Base.Dict
use golang_db.Base.Dict.{Dict}
use golang_db.Btree.{SortedBy}
use golang_db.Memtable.{Entry, less}
use golang_db.Sstable.Blocks.{IndexEntry, encode, write_data_blocks}
use golang_db.Sstable.Blocks.Decoded.{encode_all, value_in}
use golang_db.Sstable.Blocks.Written.{index_of}
use golang_db.Sstable.Blocks.Layout.{IsLaidOut, write_data_blocks-IsLaidOut}
use golang_db.Sstable.Index.{index_entry_bytes, write_index_block, write_footer}
use golang_db.Sstable.Index.RoundTrip.{whole_file}
use golang_db.Base.{zero, suc, ◌<◌, if◌then◌else◌}
use golang_db.Base.Bytes.{has_prefix}
use golang_db.Sstable.Scan.{prefix_scan}
use golang_db.Sstable.Scan.Newest.{newest_below, prefix_scan-newest}
use golang_db.Sstable.Blocks.{find_in_block, put_entries}
use golang_db.Sstable.Scan.{scan_entries}
use golang_db.Sstable.Rounds.{Ends, loops-Ends}
use golang_db.Sstable.Search.{get_lower_bound, IsLowerBound, get_lower_bound-IsLowerBound}
use golang_db.Sstable.Blocks.{write_entry}
use golang_db.Sstable.Table.{get, write, write_to_file}
use golang_db.Sstable.Table.Write.{IsAligned, get-write}
use golang_db.Sstable.Compaction.{
  build_compacted_map, sorted_keys, compacted_entries, has_name, names, atomic_swap,
}
use golang_db.Sstable.Compaction.Merge.{IsWritten, newest, build_compacted_map-newest}
use golang_db.Sstable.Compaction.Sorting.{compacted_entries_lem}
use golang_db.Sstable.Compaction.Swap.{atomic_swap_lem}
use golang_db.Sstable.Table.{SsFile, SsTable, Manifest, at, get_files}
use golang_db.Sstable.Table.Stored.{IsStored}
use golang_db.Sstable.Table.Get.{get_files-hidden}

abbrev b : Bytes
b = 98 ∷ []

abbrev d : Bytes
d = 100 ∷ []

abbrev two_entries : List Entry
two_entries = record { key = b; value = 1 ∷ [] } ∷ record { key = d; value = 2 ∷ 3 ∷ [] } ∷ []

write_data_blocks-IsLaidOut_example : IsLaidOut two_entries (write_data_blocks 12 two_entries)
write_data_blocks-IsLaidOut_example =
    write_data_blocks-IsLaidOut 12 two_entries (λ h. cc, (λ h. cc, tt))

abbrev two_blocks : List IndexEntry
two_blocks = record { key = b; offset = 0 } ∷ record { key = d; offset = 10 } ∷ []

get_lower_bound-IsLowerBound_example :
    IsLowerBound (99 ∷ []) two_blocks (get_lower_bound (99 ∷ []) two_blocks)
get_lower_bound-IsLowerBound_example =
    get_lower_bound-IsLowerBound (99 ∷ []) two_blocks ((unfold cmp in refl, tt), (tt, tt))

whole_file_fits : IsU32 (length (whole_file (0 ∷ 0 ∷ []) two_blocks))
unfolding write_footer write_index_block index_entry_bytes put_u32
whole_file_fits = omega arith

-- A table of one file that holds the two entries, and an older file that is empty.
abbrev two_bytes_more : Bytes
two_bytes_more = encode_all two_entries ++ 0 ∷ 9 ∷ []

abbrev empty_file : SsFile
empty_file = record { name = []; contents = 0 ∷ 0 ∷ 0 ∷ 0 ∷ [] }

abbrev manifest : Manifest
manifest = record { next_file_id = 2; file_names = [] ∷ b ∷ [] }

abbrev table : SsTable
table = record {
  data_files_directory = [];
  first_level_files = empty_file ∷ record { name = b; contents = two_bytes_more } ∷ [];
  index_offsets = 0 ∷ length (encode_all two_entries) ∷ [];
  block_length = 12;
  index_blocks = [] ∷ index_of 0 (two_entries ∷ []) ∷ [];
  manifest = manifest;
  skip_index = false;
  compacting = false;
  saved = manifest;
  on_disk = [];
}

fits : IsU32 (length two_bytes_more)
unfolding encode put_u32
fits = omega arith

table-IsStored : IsStored table 1 two_entries
unfolding at
table-IsStored = record {
  file = record { name = b; contents = two_bytes_more };
  blocks = two_entries ∷ [];
  next_byte = 0;
  tail = 9 ∷ [];
  at_file = refl;
  at_index = refl;
  at_offset = refl;
  contents = refl;
  cut = refl;
  filled = (λ h. cc, tt);
  sorted = ((unfold cmp in refl, tt), (tt, tt));
  small = fits;
}

get_files-hidden_example : get_files 2 table (99 ∷ []) ≡ err datablock_corrupted
get_files-hidden_example =
    get_files-hidden table 1 two_entries table-IsStored (99 ∷ []) (unfold cmp in refl)
      (unfold cmp in refl) (λ h. cc)

table-IsAligned : IsAligned table
table-IsAligned = record { indexed = refl; blocks = refl; offsets = refl }

written_fits :
    IsU32 (length (write_to_file table (record { name = d; contents = [] }) two_entries).0.contents)
unfolding cmp write_to_file write_data_blocks write_entry write_footer write_index_block
    index_entry_bytes encode put_u32
written_fits = omega arith

get-write_example :
    get (write table (record { name = d; contents = [] }) two_entries) b ≡ ok (1 ∷ [])
get-write_example =
    get-write table d two_entries b (1 ∷ []) table-IsAligned (λ h. cc, (λ h. cc, tt))
      ((unfold cmp in refl, tt), (tt, tt)) written_fits (unfold cmp in refl) (λ h. cc)

loops-Ends_example :
    Ends (find_in_block 3 (0 ∷ 0 ∷ 9 ∷ []) 0 b)
    × Ends (put_entries 3 (0 ∷ 0 ∷ 9 ∷ []) 0 [])
    × Ends (scan_entries 3 (0 ∷ 0 ∷ 9 ∷ []) 0 b [])
loops-Ends_example = loops-Ends (0 ∷ 0 ∷ 9 ∷ []) b []

-- Two files of a compaction, the first the older, and what is merged of them.
abbrev older : SsFile
older = record { name = b; contents = whole_file (encode_all two_entries) [] }

abbrev newer_entries : List Entry
newer_entries = record { key = d; value = 9 ∷ [] } ∷ []

abbrev newer : SsFile
newer = record { name = d; contents = whole_file (encode_all newer_entries) [] }

older-IsWritten : IsWritten older two_entries
older-IsWritten = record {
  index = [];
  contents = refl;
  small = unfold write_footer write_index_block encode put_u32 in omega arith;
  words = tt;
  sorted = ((unfold cmp in refl, tt), (tt, tt));
}

newer-IsWritten : IsWritten newer newer_entries
newer-IsWritten = record {
  index = [];
  contents = refl;
  small = unfold write_footer write_index_block encode put_u32 in omega arith;
  words = tt;
  sorted = (tt, tt);
}

build_compacted_map-newest_example :
    (m : Dict Bytes) × (build_compacted_map (older ∷ newer ∷ []) ≡ ok m)
    × ((key : Bytes) → Dict.lookup key m ≡ newest key (two_entries ∷ newer_entries ∷ []))
build_compacted_map-newest_example =
    build_compacted_map-newest (older ∷ newer ∷ []) (two_entries ∷ newer_entries ∷ [])
      (older-IsWritten, (newer-IsWritten, tt))

abbrev unsorted : Dict Bytes
unsorted = (d, 1 ∷ []) ∷ (b, 2 ∷ []) ∷ []

compacted_entries_lem_example :
    SortedBy less (compacted_entries unsorted (sorted_keys unsorted))
    × ((key : Bytes)
        → value_in key (compacted_entries unsorted (sorted_keys unsorted))
          ≡ Dict.lookup key unsorted)
compacted_entries_lem_example =
    compacted_entries_lem unsorted
      (unfold Dict.lookup cmp in refl, (unfold Dict.lookup in refl, tt))

-- The table's older file is compacted while the newer one is written.
atomic_swap_lem_example :
    ((atomic_swap newer (empty_file ∷ []) [] 7 table).first_level_files
      ≡ newer ∷ record { name = b; contents = two_bytes_more } ∷ [])
    × ((atomic_swap newer (empty_file ∷ []) [] 7 table).index_blocks
        ≡ [] ∷ index_of 0 (two_entries ∷ []) ∷ [])
    × ((atomic_swap newer (empty_file ∷ []) [] 7 table).saved.file_names ≡ d ∷ b ∷ [])
    × ((atomic_swap newer (empty_file ∷ []) [] 7 table).index_offsets ≡ table.index_offsets)
unfolding names
atomic_swap_lem_example =
    atomic_swap_lem newer (empty_file ∷ []) (record { name = b; contents = two_bytes_more } ∷ []) []
      ([] ∷ []) (index_of 0 (two_entries ∷ []) ∷ []) 7 table
      (record {
        files = refl;
        blocks = refl;
        same_length = refl;
        same_length' = refl;
        fresh = (unfold has_name cmp in refl, tt);
      })

empty-IsStored : IsStored table 0 []
unfolding at
empty-IsStored = record {
  file = empty_file;
  blocks = [];
  next_byte = 0;
  tail = 0 ∷ 0 ∷ 0 ∷ [];
  at_file = refl;
  at_index = refl;
  at_offset = refl;
  contents = refl;
  cut = refl;
  filled = tt;
  sorted = tt;
  small = omega arith;
}

abbrev held : ℕ → List Entry
held zero = []
held (suc n) = two_entries

all-IsStored : (i : ℕ) → i < 2 → IsStored table i (held i)
all-IsStored zero h = empty-IsStored
all-IsStored (suc zero) h = table-IsStored
all-IsStored (suc (suc i)) h = absurd (omega arith)

prefix_scan-newest_example :
    (m : Dict Bytes) × (prefix_scan table d ≡ ok m)
    × ((j : Bytes) → Dict.lookup j m ≡ (if has_prefix j d then newest_below j held 2 else none))
prefix_scan-newest_example = prefix_scan-newest table held d all-IsStored
