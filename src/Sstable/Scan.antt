-- ===== src/Sstable/Scan.antt =====
-- PrefixScan of sstable/sstable.go with sequentiallyScanTableAndUpdateMap.
pub mod Entries
pub mod Files
pub mod Newest
use golang_db.Base.{
  ℕ, zero, suc, ◌+◌, ◌-◌, Option, none, some, List, [], ◌∷◌, ltb, if◌then◌else◌, length, take,
  get_elem?, Result, ok, err, panic, out_of_fuel, ◌>>=◌,
}
use golang_db.Base.Bytes.{Bytes, str_lt, has_prefix}
use golang_db.Base.Dict
use golang_db.Base.Dict.{Dict}
use golang_db.Memtable.{Entry}
use golang_db.Sstable.Blocks.{IndexEntry, extract_entry}
use golang_db.Sstable.Search.{get_lower_bound}
use golang_db.Sstable.Table.{SsFile, SsTable, at, read_at_eof}

-- if _, ok := tableMap[key]; !ok { tableMap[key] = value }
unfoldable pub put_if_absent : Option Bytes → Entry → Dict Bytes → Dict Bytes
put_if_absent none e table_map = Dict.put e.key e.value table_map
put_if_absent (some v) e table_map = table_map

unfoldable pub add_absent : Entry → Dict Bytes → Dict Bytes
unfolding put_if_absent
add_absent e table_map = put_if_absent (Dict.lookup e.key table_map) e table_map

-- The loop over the entries of the buffer, with the length of the buffer for the rounds.
unfoldable pub scan_entries : ℕ → Bytes → ℕ → Bytes → Dict Bytes → Result (Dict Bytes)
scan_entries zero buf i table_key table_map =
    if ltb i (length buf) then err out_of_fuel else ok table_map
scan_entries (suc fuel) buf i table_key table_map =
    let next = (do
      (e, i') ← extract_entry buf i
      (let added = scan_entries fuel buf i' table_key (add_absent e table_map) in
          let skipped = scan_entries fuel buf i' table_key table_map in
          if has_prefix e.key table_key
          then added
          else if str_lt table_key (take (length table_key) e.key)
          then ok table_map
          else skipped)) in
    if ltb i (length buf) then next else ok table_map

unfoldable pub sequentially_scan_table_and_update_map :
    SsFile → Bytes → ℕ → ℕ → Dict Bytes → Result (Dict Bytes)
sequentially_scan_table_and_update_map file table_key start end table_map =
    let buf = read_at_eof file.contents (end - start) start in
    if ltb end start then err panic else scan_entries (length buf) buf 0 table_key table_map

-- The block from which a file is read: `none` is the `continue`.
unfoldable pub first_block : Bytes → Option IndexEntry → Option ℕ → Option ℕ
first_block prefix_key first (some b) = some b
first_block prefix_key none none = none
first_block prefix_key (some first) none = if has_prefix first.key prefix_key then some 0 else none

unfoldable pub scan_from :
    SsTable → ℕ → Bytes → SsFile → List IndexEntry → Dict Bytes → Option ℕ → Result (Dict Bytes)
scan_from st i prefix_key file index table_map none = ok table_map
scan_from st i prefix_key file index table_map (some b) = do
  end ← at st.index_offsets i
  start ← at index b
  sequentially_scan_table_and_update_map file prefix_key start.offset end table_map

unfoldable pub scan_file : SsTable → ℕ → Bytes → Dict Bytes → Result (Dict Bytes)
scan_file st i prefix_key table_map = do
  file ← at st.first_level_files i
  index ← at st.index_blocks i
  scan_from st i prefix_key file index table_map
      (first_block prefix_key (get_elem? index 0) (get_lower_bound prefix_key index))

-- From the newest file to the oldest; `n` files are left.
unfoldable pub scan_files : ℕ → SsTable → Bytes → Dict Bytes → Result (Dict Bytes)
scan_files zero st prefix_key table_map = ok table_map
scan_files (suc n) st prefix_key table_map = do
  table_map' ← scan_file st n prefix_key table_map
  scan_files n st prefix_key table_map'

unfoldable pub prefix_scan : SsTable → Bytes → Result (Dict Bytes)
prefix_scan st prefix_key = scan_files (length st.first_level_files) st prefix_key []
