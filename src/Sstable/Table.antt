-- ===== src/Sstable/Table.antt =====
-- The table of files: SsTable of sstable/sstable.go with its Get, NewFile and Write, and
-- the manifest of sstable/manifest.go as the value that is saved. The list of files holds what the
-- handles of the source stand for: a name and the bytes behind it.
pub mod Located
pub mod Lookup
pub mod Stored
pub mod Get
pub mod Write
pub mod Reopen
use golang_db.Base.{
  ℕ, zero, suc, ◌+◌, ◌-◌, ◌≤◌, Bool, true, false, not, Option, none, some, List, [], ◌∷◌, ◌++◌, ltb,
  leb, ◌==◌, if◌then◌else◌, length, take, drop, get_elem?, Result, ok, err, panic, out_of_fuel,
  ◌>>=◌,
}
use golang_db.Base.Bytes.{Bytes, str_eq, str_lt, has_prefix}
use golang_db.Base.Text.{codes}
use golang_db.Base.Decimal.{decimal}
use golang_db.Base.Dict
use golang_db.Base.Dict.{Dict}
use golang_db.Memtable.{Entry}
use golang_db.Sstable.Blocks.{IndexEntry, Blocks, write_data_blocks, extract_entry, find_in_block}
use golang_db.Sstable.Index.{write_index_block, write_footer}
use golang_db.Sstable.Search.{get_lower_bound}

pub record SsFile : Type 0 where
  pub name : Bytes
  pub contents : Bytes

-- `file_names` has the oldest file first.
pub record Manifest : Type 0 where
  pub next_file_id : ℕ
  pub file_names : List Bytes

-- The mutex is left out: what runs with it held is one step. `saved` is the manifest on disk, and
-- `on_disk` the bytes of the files that the disk has, by their paths, those of earlier runs too. A file
-- that is empty and one that is not there are alike.
pub record SsTable : Type 0 where
  pub data_files_directory : Bytes
  pub first_level_files : List SsFile
  pub index_offsets : List ℕ
  pub block_length : ℕ
  pub index_blocks : List (List IndexEntry)
  pub manifest : Manifest
  pub skip_index : Bool
  pub compacting : Bool
  pub saved : Manifest
  pub on_disk : Dict Bytes

-- A slice that is indexed out of its range is a run-time fault.
unfoldable pub at {ℓ} : {A : Type ℓ} → List A → ℕ → Result A
at xs i = elim (get_elem? xs i) [ none ↦ err panic | some x ↦ ok x ]

abbrev pub log_path : Bytes → ℕ → Bytes
log_path directory id = directory ++ (codes "/" ++ (decimal id ++ codes ".log"))

-- What os.OpenFile with O_APPEND and O_CREATE finds behind a path.
unfoldable pub opened_contents : Dict Bytes → Bytes → Bytes
opened_contents files path = elim (Dict.lookup path files) [ none ↦ [] | some contents ↦ contents ]

-- A file that is there already keeps its bytes: what is written goes behind them.
unfoldable pub new_file : SsTable → SsFile × SsTable
new_file st = (
  record {
    name = log_path st.data_files_directory st.manifest.next_file_id;
    contents =
        opened_contents st.on_disk (log_path st.data_files_directory st.manifest.next_file_id);
  },
  record st { manifest = record st.manifest { next_file_id = st.manifest.next_file_id + 1 } },
)

-- The file with its blocks, and with the index and the footer unless the index is skipped; and what
-- Write keeps in memory.
unfoldable pub write_to_file : SsTable → SsFile → List Entry → SsFile × ℕ × List IndexEntry
write_to_file st file entries =
    let b = write_data_blocks st.block_length entries in
    let indexed =
      write_footer (write_index_block (file.contents ++ b.file) b.index_block) b.offset in
    (
      record file { contents = if st.skip_index then file.contents ++ b.file else indexed },
      b.offset,
      b.index_block,
    )

-- saveManifest
unfoldable pub save_manifest : SsTable → SsTable
save_manifest st = record st { saved = st.manifest }

unfoldable pub write : SsTable → SsFile → List Entry → SsTable
unfolding save_manifest
write st file entries =
    let (file', index_offset, index_block) = write_to_file st file entries in
    save_manifest (record st {
      first_level_files = st.first_level_files ++ file' ∷ [];
      index_blocks = if st.skip_index then st.index_blocks else st.index_blocks ++ index_block ∷ [];
      manifest = record st.manifest { file_names = st.manifest.file_names ++ file'.name ∷ [] };
      index_offsets = st.index_offsets ++ index_offset ∷ [];
      on_disk = Dict.put file'.name file'.contents st.on_disk;
    })

abbrev pub zeros : ℕ → Bytes
zeros zero = []
zeros (suc n) = 0 ∷ zeros n

-- ReadAt into a buffer of `n` zeros, where io.EOF is accepted: what is missing stays zero.
unfoldable pub read_at_eof : Bytes → ℕ → ℕ → Bytes
read_at_eof contents n offset =
    let got = take n (drop offset contents) in got ++ zeros (n - length got)

-- An end offset more than one byte before the start is a buffer of a length below zero.
unfoldable pub get_value_from_block : SsFile → Bytes → ℕ → ℕ → Result Bytes
get_value_from_block file key start end =
    let buf = read_at_eof file.contents (end + 1 - start) start in
    if ltb (end + 1) start then err panic else find_in_block (length buf) buf 0 key

-- The end of a block: the start of the next one, or the start of the index block.
unfoldable pub end_offset : List IndexEntry → ℕ → ℕ → Result ℕ
end_offset index i index_offset =
    if ltb (i + 1) (length index)
    then (do next ← at index (i + 1); ok next.offset)
    else ok index_offset

-- The search in one file; `none` is the `continue` where no block begins at or below the key.
unfoldable pub get_from_block :
    SsTable → ℕ → Bytes → SsFile → List IndexEntry → Option ℕ → Result Bytes
get_from_block st i key file index none = ok []
get_from_block st i key file index (some b) = do
  index_offset ← at st.index_offsets i
  end ← end_offset index b index_offset
  start ← at index b
  get_value_from_block file key start.offset end

unfoldable pub get_from_file : SsTable → ℕ → Bytes → Result Bytes
get_from_file st i key = do
  file ← at st.first_level_files i
  index ← at st.index_blocks i
  get_from_block st i key file index (get_lower_bound key index)

-- `if value == "" && err == nil { continue }`, else return
unfoldable pub or_older : Result Bytes → Result Bytes → Result Bytes
or_older (err e) older = err e
or_older (ok value) older = if str_eq value [] then older else ok value

-- for i := len(st.firstLevelFiles) - 1; i >= 0; i--: `n` files are left to search.
unfoldable pub get_files : ℕ → SsTable → Bytes → Result Bytes
unfolding or_older
get_files zero st key = ok []
get_files (suc n) st key = or_older (get_from_file st n key) (get_files n st key)

-- Get with the index; the linear search that `skipIndex` turns on is not modelled.
unfoldable pub get : SsTable → Bytes → Result Bytes
get st key = get_files (length st.first_level_files) st key
