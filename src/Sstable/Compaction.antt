-- ===== src/Sstable/Compaction.antt =====
-- sstable/compaction.go and sstable/utils.go: all files of a table merged into one. A run is a
-- goroutine: the table may take new files between the copy of the list of files and the swap, so that
-- the parts of a run are functions of their own, each of the table as it finds it.
pub mod Merge
pub mod Sorting
pub mod Swap
use golang_db.Base.{
  ℕ, zero, suc, ◌+◌, ◌-◌, Bool, true, false, not, ◌&&◌, Option, none, some, List, [], ◌∷◌, ◌++◌,
  map, leb, if◌then◌else◌, length, get_elem?, Result, ok, err, ◌>>=◌,
}
use golang_db.Base.Bytes.{Bytes, str_eq, str_lt}
use golang_db.Base.Dict
use golang_db.Base.Dict.{Dict}
use golang_db.Memtable.{Entry}
use golang_db.Sstable.Blocks.{IndexEntry, put_entries}
use golang_db.Sstable.Index.{read_at, get_index_offset}
use golang_db.Sstable.Table.{SsFile, SsTable, at, new_file, write_to_file, save_manifest}

unfoldable pub should_run_compaction : SsTable → Bool
should_run_compaction st = not st.compacting && leb 4 (length st.first_level_files)

-- One file of buildCompactedMap.
unfoldable pub add_file : Dict Bytes → SsFile → Result (Dict Bytes)
add_file compacted_map file = do
  index_offset ← get_index_offset file.contents
  buf ← read_at file.contents index_offset 0
  put_entries (length buf) buf 0 compacted_map

-- From the oldest file to the newest.
unfoldable pub add_files : Dict Bytes → List SsFile → Result (Dict Bytes)
add_files compacted_map [] = ok compacted_map
add_files compacted_map (file ∷ rest) = do
  compacted_map' ← add_file compacted_map file
  add_files compacted_map' rest

unfoldable pub build_compacted_map : List SsFile → Result (Dict Bytes)
build_compacted_map files = add_files [] files

-- sort.Strings
unfoldable pub insert_key : Bytes → List Bytes → List Bytes
insert_key key [] = key ∷ []
insert_key key (k ∷ rest) = if str_lt key k then key ∷ k ∷ rest else k ∷ insert_key key rest

unfoldable pub sort_strings : List Bytes → List Bytes
unfolding insert_key
sort_strings [] = []
sort_strings (key ∷ rest) = insert_key key (sort_strings rest)

unfoldable pub keys : Dict Bytes → List Bytes
keys [] = []
keys ((key, value) ∷ rest) = key ∷ keys rest

unfoldable pub sorted_keys : Dict Bytes → List Bytes
unfolding sort_strings keys
sorted_keys mp = sort_strings (keys mp)

-- compactedMap[key], the empty string where the key is missing
unfoldable pub value_or_empty : Option Bytes → Bytes
value_or_empty none = []
value_or_empty (some v) = v

-- The iterator's sequence of calls.
unfoldable pub compacted_entries : Dict Bytes → List Bytes → List Entry
unfolding value_or_empty
compacted_entries compacted_map [] = []
compacted_entries compacted_map (key ∷ rest) =
    record { key = key; value = value_or_empty (Dict.lookup key compacted_map) }
    ∷ compacted_entries compacted_map rest

-- An error is logged, and the run goes on with the nil map.
unfoldable pub map_or_nil : Result (Dict Bytes) → Dict Bytes
map_or_nil (ok m) = m
map_or_nil (err e) = []

unfoldable pub has_name : List SsFile → Bytes → Bool
has_name [] name = false
has_name (file ∷ rest) name = if str_eq file.name name then true else has_name rest name

-- What atomicSwap keeps of the current files: those that were not compacted, with their index blocks.
unfoldable pub kept_files : List SsFile → List SsFile → List SsFile
kept_files old [] = []
kept_files old (file ∷ rest) =
    if has_name old file.name then kept_files old rest else file ∷ kept_files old rest

-- st.indexBlocks[i] beside file i; `blocks` are the index blocks from `i` on. Where they are fewer than
-- the files Go has a run-time fault; a table with an index has one for each file.
unfoldable pub kept_blocks :
    List SsFile → List SsFile → List (List IndexEntry) → List (List IndexEntry)
kept_blocks old [] blocks = []
kept_blocks old (file ∷ rest) [] = []
kept_blocks old (file ∷ rest) (b ∷ blocks) =
    if has_name old file.name then kept_blocks old rest blocks else b ∷ kept_blocks old rest blocks

unfoldable pub names : List SsFile → List Bytes
names [] = []
names (file ∷ rest) = file.name ∷ names rest

-- atomicSwap. The offsets that it gathers are never assigned to the table.
unfoldable pub atomic_swap : SsFile → List SsFile → List IndexEntry → ℕ → SsTable → SsTable
unfolding save_manifest
atomic_swap compacted_file old_files compacted_index_block compacted_index_offset st =
    let swapped_files = compacted_file ∷ kept_files old_files st.first_level_files in
    save_manifest (record st {
      first_level_files = swapped_files;
      index_blocks =
          compacted_index_block ∷ kept_blocks old_files st.first_level_files st.index_blocks;
      manifest = record st.manifest { file_names = names swapped_files };
    })

-- Steps 1 and 2 of RunCompaction: the flag, and the copy of the list of files.
unfoldable pub begin_compaction : SsTable → SsTable × List SsFile
begin_compaction st = (record st { compacting = true }, st.first_level_files)

-- Steps 2 to 5: the merged entries go to a new file. The old files are read as they were.
unfoldable pub write_compacted : List SsFile → SsTable → (SsFile × ℕ × List IndexEntry) × SsTable
unfolding sorted_keys
write_compacted files st =
    let compacted_map = map_or_nil (build_compacted_map files) in
    let (compacted_file, st') = new_file st in
    let written =
      write_to_file st' compacted_file
        (compacted_entries compacted_map (sorted_keys compacted_map)) in
    (written, record st' { on_disk = Dict.put written.0.name written.0.contents st'.on_disk })

-- os.Remove of the old files
unfoldable pub remove_files : List SsFile → Dict Bytes → Dict Bytes
remove_files old [] = []
remove_files old ((path, contents) ∷ rest) =
    let others = remove_files old rest in
    if has_name old path then others else (path, contents) ∷ others

-- Steps 6 and 7, and the deferred reset of the flag.
unfoldable pub finish_compaction : List SsFile → SsFile × ℕ × List IndexEntry → SsTable → SsTable
finish_compaction files (file, index_offset, index_block) st =
    let swapped = atomic_swap file files index_block index_offset st in
    record swapped { compacting = false; on_disk = remove_files files swapped.on_disk }

-- A run that nothing interrupts.
unfoldable pub run_compaction : SsTable → SsTable
run_compaction st =
    let (st', files) = begin_compaction st in
    let (written, st'') = write_compacted files st' in finish_compaction files written st''
