-- ===== src/Db/Tables.antt =====
-- The tables of a database: createTable of db/create.go, and in db/db.go getTableNameVsSchemaMap, which
-- NewDB loads them with, ShowTables and ShowCreateTable.
pub mod Names
pub mod Load
use golang_db.Base.{
  ℕ, ◌==◌, Option, none, some, List, [], ◌∷◌, ◌++◌, if◌then◌else◌, length, take, ◌-◌, Result, ok,
  err, error_text, ◌>>=◌,
}
use golang_db.Base.Bytes.{Bytes, str_eq}
use golang_db.Base.Text.{codes}
use golang_db.Base.Dict
use golang_db.Base.Dict.{Dict}
use golang_db.Wal.{Disk}
use golang_db.Memtable.{EntryTree}
use golang_db.Db.Schema.{
  CreateTable, SecondaryIndex, serialise_create_table_input, deserialise_create_table_input,
  serialise_secondary_index_catalog, deserialise_secondary_index_catalog,
}
use golang_db.Db.Database.{Db, get, put}
use golang_db.Db.Rows.{Schemas}
use golang_db.Sql.Parser.{new_parser}
use golang_db.Sql.Parser.Create.{parse_create_table}

abbrev pub catalog_key : Bytes
catalog_key = codes "_calatog"

abbrev pub schema_key : Bytes → Bytes
schema_key name = codes "_schema:" ++ name

abbrev pub secondary_indexes_key : Bytes → Bytes
secondary_indexes_key name = codes "_secondary_indexes:" ++ name

-- The name of each table with a comma behind it.
unfoldable pub table_names : Schemas → Bytes
table_names [] = []
table_names ((name, table) ∷ rest) = table.table_name ++ (44 ∷ table_names rest)

-- tableNames[:tableNamesLength-1]
unfoldable pub without_last : Bytes → Bytes
without_last names = take (length names - 1) names

-- strings.Split at one character; `current` is what is read of the part.
unfoldable pub split_at : ℕ → Bytes → Bytes → List Bytes
split_at separator [] current = current ∷ []
split_at separator (c ∷ s) current =
    let ended = current ∷ split_at separator s [] in
    let longer = split_at separator s (current ++ c ∷ []) in
    if c == separator then ended else longer

-- The loop of ShowTables.
unfoldable pub names_of : Schemas → List Bytes
names_of [] = []
names_of ((name, table) ∷ rest) = table.table_name ∷ names_of rest

-- The loop of ShowCreateTable.
unfoldable pub named : Bytes → Schemas → Result CreateTable
named name [] = err (error_text (codes "table: '" ++ (name ++ codes "' not found")))
named name ((key, table) ∷ rest) =
    let later = named name rest in if str_eq table.table_name name then ok table else later

-- The order in which a range visits the map of the schemas is `visit`.
module _ (bt : EntryTree) (visit : Schemas → Schemas) where
  -- The last Put, behind the catalog of the indexes.
  unfoldable pub put_indexes :
      Disk → Schemas → Db bt → Bytes → Result Bytes → Result (Unit {0}) × Schemas × Db bt
  put_indexes disk schemas db name (err e) = (err e, schemas, db)
  put_indexes disk schemas db name (ok buf) =
      (ok tt, schemas, (put bt disk db (secondary_indexes_key name) buf).1)

  -- The errors of the three calls of Put are dropped; the disk may answer each otherwise.
  unfoldable pub create_table :
      Disk → Disk → Disk → Schemas → Db bt → CreateTable → Result (Unit {0}) × Schemas × Db bt
  create_table disk₁ disk₂ disk₃ schemas db input =
      let schemas' = Dict.put input.table_name input schemas in
      let names = without_last (table_names (visit schemas')) in
      let db₁ = (put bt disk₁ db catalog_key names).1 in
      let db₂ =
        (put bt disk₂ db₁ (schema_key input.table_name) (serialise_create_table_input input)).1 in
      put_indexes disk₃ schemas' db₂ input.table_name
        (serialise_secondary_index_catalog input.column_details input.secondary_indexes)

  -- CreateTable
  unfoldable pub create_query :
      Disk → Disk → Disk → Schemas → Db bt → Bytes → Result (Unit {0}) × Schemas × Db bt
  create_query disk₁ disk₂ disk₃ schemas db query = elim (parse_create_table (new_parser query)) [
    | err e ↦ (err e, schemas, db)
    | ok input ↦ create_table disk₁ disk₂ disk₃ schemas db input
  ]

unfoldable pub show_tables : (Schemas → Schemas) → Schemas → List Bytes
show_tables visit schemas = names_of (visit schemas)

unfoldable pub show_create_table : (Schemas → Schemas) → Schemas → Bytes → Result CreateTable
show_create_table visit schemas name = named name (visit schemas)

module _ (bt : EntryTree) where
  -- The schema of one table.
  unfoldable pub load_table : Db bt → Bytes → Result CreateTable
  load_table db name = do
    schema ← get bt db (schema_key name)
    table ← deserialise_create_table_input schema
    catalog ← get bt db (secondary_indexes_key name)
    indexes ← deserialise_secondary_index_catalog catalog table.column_details
    ok (record table { table_name = name; secondary_indexes = indexes })

  unfoldable pub load_tables : Db bt → List Bytes → Schemas → Result Schemas
  load_tables db [] schemas = ok schemas
  load_tables db (name ∷ names) schemas = do
    table ← load_table db name
    load_tables db names (Dict.put name table schemas)

  unfoldable pub get_table_name_vs_schema_map : Db bt → Result Schemas
  get_table_name_vs_schema_map db = do
    tables ← get bt db catalog_key
    if str_eq tables [] then ok [] else load_tables db (split_at 44 tables []) []
