-- ===== src/Sstable/Open/Restart.antt =====
-- A table of files that is opened again finds what the flushes before have left on the disk.
use golang_db.Sstable.Table.{SsFile}
use golang_db.Sstable.Open.{disk_of}
use golang_db.Sstable.Table.{save_manifest}
use golang_db.Base.{
  ℕ, ◌≤◌, ◌≡◌, refl, sym, ap, ◌∙◌, List, [], ◌∷◌, ◌++◌, none, All, false, length, arith, ok,
}
use golang_db.Base.Bytes.{IsU32, str_eq-ne}
use golang_db.Base.Dict
use golang_db.Base.Dict.{Dict, lookup-put, lookup-put_self}
use golang_db.Memtable.{Entry}
use golang_db.Sstable.Blocks.{IndexEntry}
use golang_db.Sstable.Blocks.Layout.{IsKeyed}
use golang_db.Sstable.Table.{SsTable, new_file, write_to_file, write}
use golang_db.Sstable.Table.Reopen.{build_index-write_to_file}
use golang_db.Sstable.Open.{
  Config, Disk, with_defaults, get_manifest, get_all_files, build_indexes, opened, new_ss_table,
  flush_to_disk,
}
use mathlib.Core.Path.{subst}
use golang_db.Sstable.Open.Files.{
  get_all_files-put, build_indexes-append, new_file-free, write_to_file-name, write-index_blocks,
  with_defaults-indexed,
}
use golang_db.Sstable.Table.{log_path, save_manifest}
use golang_db.Sstable.Open.Paths.{log_path_inj}

abbrev pub empty_disk : Disk
empty_disk = record { files = []; manifest = none }

-- The flushes from the opening of an empty directory on. Keys are not empty, and a file has fewer than
-- 2 ^ 32 bytes.
pub data Flushed (config : Config) : Disk → SsTable → Type 0 where
  start : (st : SsTable) → new_ss_table config empty_disk ≡ ok st → Flushed config empty_disk st
  next :
      (disk : Disk) (st : SsTable) (entries : List Entry)
      → Flushed config disk st
      → All IsKeyed entries
      → IsU32 (length (write_to_file (new_file st).1 (new_file st).0 entries).0.contents)
      → Flushed config (flush_to_disk st entries).0 (flush_to_disk st entries).1

-- What a restart relies on.
record IsRestartable (config : Config) (disk : Disk) (st : SsTable) : Type 0 where
  open_files : get_all_files disk st.manifest.file_names ≡ ok st.first_level_files
  indexes : build_indexes st.first_level_files ≡ ok (st.index_offsets, st.index_blocks)
  on_disk : get_manifest disk ≡ st.manifest
  free :
      (id : ℕ)
      → st.manifest.next_file_id ≤ id
      → Dict.lookup (log_path st.data_files_directory id) disk.files ≡ none
  directory : (with_defaults config).data_files_directory ≡ st.data_files_directory
  blocks : (with_defaults config).block_length ≡ st.block_length
  config_indexed : config.skip_index ≡ false
  indexed : (with_defaults config).skip_index ≡ st.skip_index
  idle : st.compacting ≡ false
  saved : st.saved ≡ st.manifest
  on_disk_files : st.on_disk ≡ disk.files

-- What is restartable is found again.
IsRestartable-opens :
    (config : Config) (disk : Disk) (st : SsTable)
    → IsRestartable config disk st
    → new_ss_table config disk ≡ ok st
unfolding new_ss_table opened
IsRestartable-opens config disk st r =
    rw
      (
        r.on_disk,
        r.directory,
        r.blocks,
        r.indexed,
        r.open_files,
        r.config_indexed,
        r.indexes,
        sym r.idle,
        sym r.saved,
        sym r.on_disk_files,
      )
      refl

IsRestartable-start :
    (config : Config) (st : SsTable)
    → config.skip_index ≡ false
    → new_ss_table config empty_disk ≡ ok st
    → IsRestartable config empty_disk st
unfolding new_ss_table opened get_all_files build_indexes get_manifest Dict.lookup
IsRestartable-start config st indexed h =
    let e : st
        ≡ opened (with_defaults config) (record { next_file_id = 0; file_names = [] }) [] []
            ([], []) =
      let k = rw indexed at h in cc in
    rw e (record {
      open_files = refl;
      indexes = refl;
      on_disk = refl;
      free = λ id h. refl;
      directory = refl;
      blocks = refl;
      config_indexed = indexed;
      indexed = refl;
      idle = refl;
      saved = refl;
      on_disk_files = refl;
    })

module _ (config : Config) (disk : Disk) (st : SsTable) (entries : List Entry)
    (r : IsRestartable config disk st) (keyed : All IsKeyed entries) where
  first_free :
      Dict.lookup (log_path st.data_files_directory st.manifest.next_file_id) disk.files ≡ none
  first_free = r.free st.manifest.next_file_id (omega arith)

  -- Behind Write, where the file was new.
  written-IsRestartable :
      IsU32 (
        length
          (write_to_file
            (new_file st).1
            (record {
              name = log_path st.data_files_directory st.manifest.next_file_id;
              contents = [];
            })
            entries).0.contents)
      → IsRestartable config
          (disk_of (
            write
              (new_file st).1
              (record {
                name = log_path st.data_files_directory st.manifest.next_file_id;
                contents = [];
              })
              entries))
          (write
            (new_file st).1
            (record {
              name = log_path st.data_files_directory st.manifest.next_file_id;
              contents = [];
            })
            entries)
  unfolding new_file write get_manifest save_manifest
  written-IsRestartable small =
      let path = log_path st.data_files_directory st.manifest.next_file_id in
      let file : SsFile = record { name = path; contents = [] } in
      let name = write_to_file-name (new_file st).1 file entries in
      let indexed : st.skip_index ≡ false =
        sym r.indexed ∙ with_defaults-indexed config r.config_indexed in
      record {
        open_files =
            get_all_files-put disk _ _ _ st.manifest.file_names st.first_level_files
              (ap
                (Dict.put (write_to_file (new_file st).1 file entries).0.name
                  (write_to_file (new_file st).1 file entries).0.contents)
                r.on_disk_files)
              (rw name first_free) r.open_files;
        indexes =
            build_indexes-append st.first_level_files _ _ _ st.index_offsets st.index_blocks
              r.indexes (build_index-write_to_file (new_file st).1 path entries indexed keyed small)
            ∙ ap
                (λ (bs : List (List IndexEntry)).
                  ok (st.index_offsets ++ (write_to_file (new_file st).1 file entries).1 ∷ [], bs))
                (sym (write-index_blocks (new_file st).1 file entries indexed));
        on_disk = refl;
        free = λ id h.
            rw
              (
                lookup-put (log_path st.data_files_directory id) _ _ st.on_disk,
                name,
                str_eq-ne path (log_path st.data_files_directory id) (λ e.
                    absurd (let k = log_path_inj st.data_files_directory _ _ e in omega arith)),
                r.on_disk_files,
              )
              (r.free id (omega arith));
        directory = r.directory;
        blocks = r.blocks;
        config_indexed = r.config_indexed;
        indexed = r.indexed;
        idle = r.idle;
        saved = refl;
        on_disk_files = refl;
      }

  IsRestartable-next :
      IsU32 (length (write_to_file (new_file st).1 (new_file st).0 entries).0.contents)
      → IsRestartable config (flush_to_disk st entries).0 (flush_to_disk st entries).1
  unfolding flush_to_disk
  IsRestartable-next small =
      let new = new_file-free st (rw r.on_disk_files first_free) in
      subst
        (λ (file : SsFile).
          IsU32 (length (write_to_file (new_file st).1 file entries).0.contents)
          → IsRestartable config (disk_of (write (new_file st).1 file entries))
              (write (new_file st).1 file entries))
        (sym new) written-IsRestartable small

Flushed-IsRestartable :
    (config : Config) (disk : Disk) (st : SsTable)
    → config.skip_index ≡ false
    → Flushed config disk st
    → IsRestartable config disk st
Flushed-IsRestartable config disk st indexed (start st₀ h) =
    IsRestartable-start config st₀ indexed h
Flushed-IsRestartable config disk st indexed (next disk₀ st₀ entries run keyed small) =
    IsRestartable-next config disk₀ st₀ entries (Flushed-IsRestartable config disk₀ st₀ indexed run)
      keyed small

-- A table with an index that begins in an empty directory and is flushed any number of times, with keys
-- that are not empty and files of fewer than 2 ^ 32 bytes: NewSsTable makes the same table, with its
-- files, index blocks, index offsets and manifest, from what the flushes have left on the disk.
pub new_ss_table-Flushed :
    (config : Config) (disk : Disk) (st : SsTable)
    → config.skip_index ≡ false
    → Flushed config disk st
    → new_ss_table config disk ≡ ok st
new_ss_table-Flushed config disk st indexed run =
    IsRestartable-opens config disk st (Flushed-IsRestartable config disk st indexed run)
