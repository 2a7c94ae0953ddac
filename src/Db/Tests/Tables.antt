-- ===== src/Db/Tests/Tables.antt =====
-- A database that holds one table with an index, loaded.
use golang_db.Base.{◌≡◌, refl, [], ◌∷◌, List, arith, ok}
use golang_db.Base.Bytes.{Bytes, cmp, put_u32}
use golang_db.Base.Text.{codes}
use golang_db.Btree.{insert, find}
use golang_db.Memtable
use golang_db.Memtable.{Memtable, new_memtable}
use golang_db.Memtable.Model.{sorted_lists}
use golang_db.Db.Command.{PutCommand}
use golang_db.Db.Schema.{
  CreateTable, serialise_columns, serialise_create_table_input, column_position, append_position,
  serialise_positions, serialise_indexes, serialise_secondary_index_catalog,
}
use golang_db.Db.Database.{Db, get, put_commands}
use golang_db.Db.Tables.{
  catalog_key, schema_key, secondary_indexes_key, table_names, without_last,
  get_table_name_vs_schema_map,
}
use golang_db.Db.Tables.Load.{IsCatalogued, get_table_name_vs_schema_map-AreCatalogued}
use golang_db.Db.Tests.{with_table}

abbrev table : CreateTable
table = record {
  table_name = codes "t";
  column_details =
      record { column_name = codes "id"; data_type = 0 }
      ∷ record { column_name = codes "n"; data_type = 1 }
      ∷ [];
  primary_key_column_position = 0;
  secondary_indexes = record { columns = codes "n" ∷ []; index_name = codes "x" } ∷ [];
}

-- One index, of the column 1.
abbrev stored_catalog : Bytes
stored_catalog = 0 ∷ 0 ∷ 0 ∷ 1 ∷ 0 ∷ 0 ∷ 0 ∷ 1 ∷ 120 ∷ 0 ∷ 0 ∷ 0 ∷ 1 ∷ 0 ∷ 0 ∷ 0 ∷ 1 ∷ []

abbrev commands : List PutCommand
commands =
    record { key = catalog_key; value = codes "t" }
    ∷ record { key = schema_key (codes "t"); value = serialise_create_table_input table }
    ∷ record { key = secondary_indexes_key (codes "t"); value = stored_catalog }
    ∷ []

abbrev holding : Db sorted_lists
holding = record (with_table []) {
  mem_table = put_commands sorted_lists commands (new_memtable sorted_lists);
}

catalog_held : get sorted_lists holding catalog_key ≡ ok (codes "t")
unfolding get Memtable.get Memtable.put put_commands new_memtable insert find cmp
catalog_held = refl

schema_held :
    get sorted_lists holding (schema_key (codes "t")) ≡ ok (serialise_create_table_input table)
unfolding get Memtable.get Memtable.put put_commands new_memtable insert find cmp
schema_held = refl

indexes_held : get sorted_lists holding (secondary_indexes_key (codes "t")) ≡ ok stored_catalog
unfolding get Memtable.get Memtable.put put_commands new_memtable insert find cmp
indexes_held = refl

catalog_serialised :
    serialise_secondary_index_catalog table.column_details table.secondary_indexes
    ≡ ok stored_catalog
unfolding serialise_secondary_index_catalog serialise_indexes serialise_positions column_position
    append_position put_u32 cmp
catalog_serialised = refl

table-IsCatalogued : IsCatalogued sorted_lists holding (codes "t") table
unfolding serialise_create_table_input serialise_columns put_u32
table-IsCatalogued = record {
  catalog = stored_catalog;
  schema_held = schema_held;
  indexes_held = indexes_held;
  serialised = catalog_serialised;
  key_fits = omega arith;
  schema_fits = omega arith;
  columns_fit = omega arith;
  catalog_fits = omega arith;
}

one_name : without_last (table_names ((codes "t", table) ∷ [])) ≡ codes "t"
unfolding without_last table_names
one_name = refl

get_table_name_vs_schema_map-AreCatalogued_example :
    get_table_name_vs_schema_map sorted_lists holding ≡ ok ((codes "t", table) ∷ [])
get_table_name_vs_schema_map-AreCatalogued_example =
    get_table_name_vs_schema_map-AreCatalogued sorted_lists holding (codes "t") table []
      (rw one_name catalog_held) ((table-IsCatalogued, refl, (omega arith, tt), λ h. cc), tt)
      (tt, tt)
