-- ===== src/Sstable/Open.antt =====
-- Opening a table of files: NewSsTable and buildIndexes of sstable/sstable.go, getManifest and
-- getAllFiles of sstable/manifest.go, and the flush of db/db.go with what it leaves on the disk. The
-- JSON text of the manifest is the value that it stands for.
use golang_db.Base.{false}
pub mod Paths
pub mod Files
pub mod Restart
pub mod Tests
use golang_db.Base.{
  ℕ, ◌==◌, Bool, List, [], ◌∷◌, Option, none, some, if◌then◌else◌, Result, ok, err, no_such_file,
  ◌>>=◌,
}
use golang_db.Base.Bytes.{Bytes, str_eq}
use golang_db.Base.Text.{codes}
use golang_db.Base.Dict
use golang_db.Base.Dict.{Dict}
use golang_db.Memtable.{Entry}
use golang_db.Sstable.Blocks.{IndexEntry}
use golang_db.Sstable.Index.{build_index_from_file}
use golang_db.Sstable.Table.{SsFile, SsTable, Manifest, new_file, write_to_file, write}

pub record Config : Type 0 where
  pub data_files_directory : Bytes
  pub block_length : ℕ
  pub skip_index : Bool

-- The disk: the bytes of each file by its path, and the manifest, which is none where its file is
-- empty.
pub record Disk : Type 0 where
  pub files : Dict Bytes
  pub manifest : Option Manifest

-- dataFilesDefaultDirectory and defaultBlockLength stand for what is not given.
unfoldable pub with_defaults : Config → Config
with_defaults config = record {
  data_files_directory =
      if str_eq config.data_files_directory []
      then codes "data_files_sstable"
      else config.data_files_directory;
  block_length = if config.block_length == 0 then 100 else config.block_length;
  skip_index = config.skip_index;
}

unfoldable pub get_manifest : Disk → Manifest
get_manifest disk = elim disk.manifest [
  | none ↦ record { next_file_id = 0; file_names = [] }
  | some manifest ↦ manifest
]

unfoldable pub open_file : Disk → Bytes → Result SsFile
open_file disk path = elim (Dict.lookup path disk.files) [
  | none ↦ err no_such_file
  | some contents ↦ ok (record { name = path; contents = contents })
]

unfoldable pub get_all_files : Disk → List Bytes → Result (List SsFile)
get_all_files disk [] = ok []
get_all_files disk (path ∷ paths) = do
  file ← open_file disk path
  files ← get_all_files disk paths
  ok (file ∷ files)

unfoldable pub build_indexes : List SsFile → Result (List ℕ × List (List IndexEntry))
build_indexes [] = ok ([], [])
build_indexes (file ∷ files) = do
  (index_offset, ss_table_index) ← build_index_from_file file.contents
  (index_offsets, ss_table_indexes) ← build_indexes files
  ok (index_offset ∷ index_offsets, ss_table_index ∷ ss_table_indexes)

-- The table with the lists that NewSsTable assigns at its end.
unfoldable pub opened :
    Config → Manifest → Dict Bytes → List SsFile → List ℕ × List (List IndexEntry) → SsTable
opened config manifest on_disk files (index_offsets, index_blocks) = record {
  data_files_directory = config.data_files_directory;
  first_level_files = files;
  index_offsets = index_offsets;
  block_length = config.block_length;
  index_blocks = index_blocks;
  manifest = manifest;
  skip_index = config.skip_index;
  compacting = false;
  saved = manifest;
  on_disk = on_disk;
}

unfoldable pub new_ss_table : Config → Disk → Result SsTable
unfolding opened get_manifest
new_ss_table config disk =
    let manifest = get_manifest disk in
    do
      files ← get_all_files disk manifest.file_names
      indexes ← if config.skip_index then ok ([], []) else build_indexes files
      ok (opened (with_defaults config) manifest disk.files files indexes)

-- The disk as the table has left it.
abbrev pub disk_of : SsTable → Disk
disk_of st = record { files = st.on_disk; manifest = some st.saved }

-- flushMemtableToSsTable with the disk behind it: a new file, the entries in it, and the manifest.
unfoldable pub flush_to_disk : SsTable → List Entry → Disk × SsTable
unfolding new_file write
flush_to_disk st entries =
    let (file, st') = new_file st in let st'' = write st' file entries in (disk_of st'', st'')
