-- ===== src/Db/Select/Pointed.antt =====
-- A SELECT whose only condition asks for a primary key.
use golang_db.Base.{ℕ}
use golang_db.Base.{◌≡◌, ◌≢◌, refl, true, false, some, List, [], ◌∷◌, ◌++◌, get_elem?, ok}
use golang_db.Base.Bytes.{Bytes, cmp, str_eq, str_eq_iff, str_eq-ne}
use golang_db.Base.Text.{codes}
use golang_db.Base.Dict
use golang_db.Base.Dict.{Dict}
use golang_db.Memtable.{EntryTree}
use golang_db.Db.Schema.{Column, CreateTable}
use golang_db.Db.Database.{Db, get}
use golang_db.Db.Rows.{Schemas, deserialize_row_values}
use golang_db.Db.Conditions.{is_pointed_primary_key_query}
use golang_db.Db.Select.{
  pk_column_name, get_row_for_primary_key, select_with_schema, select_from_table,
}
use golang_db.Sql.Parser.Select.{SelectFromTable}

-- The query whose only condition asks for a primary key.
abbrev pub pointed_query : Bytes → List Bytes → Bytes → Bytes → SelectFromTable
pointed_query table_name columns pk_name pk = record {
  table_name = table_name;
  columns_required = columns;
  query_conditions = record { column_name = pk_name; query_type = codes "="; value = pk } ∷ [];
}

pk_column_name_lem :
    (table : CreateTable) (col : Column)
    → get_elem? table.column_details table.primary_key_column_position ≡ some col
    → pk_column_name table ≡ col.column_name
unfolding pk_column_name
pk_column_name_lem table col h = rw (h, pk_column_name) refl

module _ (bt : EntryTree) (spare : ℕ → ℕ) (visit : Dict Bytes → Dict Bytes)
    (visit_set : List Bytes → List Bytes) where
  pub row_read :
      (schemas : Schemas) (db : Db bt) (table_name pk value : Bytes) (row : List Bytes)
      → get bt db (table_name ++ (58 ∷ pk)) ≡ ok value
      → deserialize_row_values spare schemas table_name value ≡ ok row
      → get_row_for_primary_key bt spare visit visit_set schemas db table_name pk ≡ ok row
  unfolding get_row_for_primary_key
  row_read schemas db table_name pk value row there read = rw there read

  pub select-pointed :
      (schemas : Schemas) (db : Db bt) (table : CreateTable) (col : Column) (columns : List Bytes)
      (table_name pk : Bytes) (row : List Bytes)
      → Dict.lookup table_name schemas ≡ some table
      → get_elem? table.column_details table.primary_key_column_position ≡ some col
      → col.column_name ≢ []
      → get_row_for_primary_key bt spare visit visit_set schemas db table_name pk ≡ ok row
      → select_from_table bt spare visit visit_set schemas db
          (pointed_query table_name columns col.column_name pk)
        ≡ ok (row ∷ [])
  unfolding select_from_table select_with_schema is_pointed_primary_key_query cmp
  select-pointed schemas db table col columns table_name pk row known key named read =
      let name = col.column_name in
      let some_name : str_eq name [] ≡ false = str_eq-ne name [] named in
      let same : str_eq name name ≡ true = (str_eq_iff name name).1 refl in
      rw (known, select_from_table, pk_column_name_lem table col key, some_name, same, read) refl
