-- ===== src/Db/Open/Restart.antt =====
-- A database that is opened again behind a restart.
use golang_db.Db.Tables.{split_at}
use golang_db.Base.Bytes.{str_eq}
use golang_db.Base.{err, ◌>>=◌, length, if◌then◌else◌}
use golang_db.Base.{◌≡◌, refl, ap, false, List, [], ◌∷◌, Result, ok}
use golang_db.Base.Bytes.{Bytes}
use golang_db.Base.Dict
use golang_db.Memtable
use golang_db.Memtable.{EntryTree}
use golang_db.Sstable.Open.{Config, Disk}
use golang_db.Sstable.Open.Restart.{Flushed, new_ss_table-Flushed}
use golang_db.Db.Database.{Db, get}
use golang_db.Db.Database.Writes.{IsLogged, recover-IsLogged}
use golang_db.Db.Rows.{Schemas}
use golang_db.Db.Tables.{
  load_table, load_tables, get_table_name_vs_schema_map, catalog_key, schema_key,
  secondary_indexes_key,
}
use golang_db.Db.Open.{new_db}

bind-same :
    {V W : Type 0} (r : Result V) (f g : V → Result W)
    → ((v : V) → f v ≡ g v)
    → (r >>= f) ≡ (r >>= g)
bind-same (err e) f g h = refl
bind-same (ok v) f g h = h v

module _ (bt : EntryTree) where
  module _ (db db' : Db bt) (same : (key : Bytes) → get bt db' key ≡ get bt db key) where
    load_table-same : (name : Bytes) → load_table bt db' name ≡ load_table bt db name
    unfolding load_table
    load_table-same name = rw (same (schema_key name), same (secondary_indexes_key name)) refl

    load_tables-same :
        (names : List Bytes) (schemas : Schemas)
        → load_tables bt db' names schemas ≡ load_tables bt db names schemas
    unfolding load_tables
    load_tables-same [] schemas = refl
    load_tables-same (name ∷ names) schemas = rw (load_table-same name) (
        bind-same (load_table bt db name) _ _
          (λ table. load_tables-same names (Dict.put name table schemas)))

    schemas-same : get_table_name_vs_schema_map bt db' ≡ get_table_name_vs_schema_map bt db
    unfolding get_table_name_vs_schema_map
    schemas-same = rw (same catalog_key) (
        bind-same (get bt db catalog_key) _ _ (λ tables.
          ap (λ (loaded : Result Schemas). if str_eq tables [] then ok [] else loaded)
            (load_tables-same (split_at 44 tables []) [])))

  get-same :
      (db db' : Db bt) (key : Bytes)
      → Memtable.get bt db'.mem_table key ≡ Memtable.get bt db.mem_table key
      → get bt (record db' { ss_table = db.ss_table }) key ≡ get bt db key
  unfolding get
  get-same db db' key agrees = rw (get, agrees) refl

  -- A database whose log and memtable are in step, and whose table of files with an index has begun in
  -- an empty directory and been flushed any number of times, with keys that are not empty and files of
  -- fewer than 2 ^ 32 bytes, is opened again from its log and from what is on the disk, where its schemas
  -- can be loaded: with these schemas, and every key is answered as before.
  pub new_db-IsLogged :
      (config : Config) (disk : Disk) (db : Db bt) (schemas : Schemas)
      → config.skip_index ≡ false
      → IsLogged bt db
      → Flushed config disk db.ss_table
      → get_table_name_vs_schema_map bt db ≡ ok schemas
      → (db' : Db bt) × (new_db bt config disk db.wal.contents ≡ ok (schemas, db'))
        × ((key : Bytes) → get bt db' key ≡ get bt db key)
  unfolding new_db
  new_db-IsLogged config disk db schemas indexed logged flushed loaded =
      let (m, runs, agrees) = recover-IsLogged bt db logged in
      let db' : Db bt = record {
        wal = record { contents = db.wal.contents; pos = length db.wal.contents };
        mem_table = m;
        ss_table = db.ss_table;
        transaction_manager = record { next_transaction_id = 1; key_vs_locks_acquired_map = [] };
        compactions = 0;
      } in
      let same : (key : Bytes) → get bt db' key ≡ get bt db key =
        λ key. get-same db db' key (agrees key) in
      (
        db',
        rw
            (
              runs,
              new_ss_table-Flushed config disk db.ss_table indexed flushed,
              schemas-same db db' same,
              loaded,
            )
            refl,
        same,
      )
