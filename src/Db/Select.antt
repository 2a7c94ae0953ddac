-- ===== src/Db/Select.antt =====
-- db/select.go and db/helper.go: how a SELECT is run.
use golang_db.Base.{ℕ}
pub mod Pointed
pub mod Inserted
use golang_db.Base.{
  ◌==◌, Option, none, some, List, [], ◌∷◌, ◌++◌, if◌then◌else◌, get_elem?, Result, ok, err,
  error_text, ◌>>=◌,
}
use golang_db.Base.Bytes.{Bytes, str_eq}
use golang_db.Base.Text.{codes}
use golang_db.Base.Dict
use golang_db.Base.Dict.{Dict}
use golang_db.Memtable
use golang_db.Memtable.{EntryTree}
use golang_db.Sstable.Scan
use golang_db.Db.Schema.{CreateTable, SecondaryIndex}
use golang_db.Db.Database.{Db, get}
use golang_db.Db.Rows.{Schemas, schema_of, deserialize_row_values}
use golang_db.Db.Indexes.{get_secondary_index_key_or_prefix}
use golang_db.Sql.Parser.Select.{QueryCondition, SelectFromTable}
use golang_db.Db.Conditions.{
  contains_name, condition_values, is_pointed_primary_key_query, is_full_table_scan_query,
  filter_query_conditions, get_secondary_index_for_query_if_applicable,
  all_columns_covered_by_secondary_index,
}

-- QueryConditions[0].Value, where there is one
abbrev pub first_value : List QueryCondition → Bytes
first_value [] = []
first_value (c ∷ conditions) = c.value

-- The name of the primary key's column, and no text where the position is of none.
unfoldable pub pk_column_name : CreateTable → Bytes
pk_column_name schema = elim (get_elem? schema.column_details schema.primary_key_column_position) [
  | none ↦ []
  | some col ↦ col.column_name
]

-- The last of strings.Split(key, ":")
unfoldable pub last_element : Bytes → Bytes → Bytes
last_element [] current = current
last_element (c ∷ s) current = last_element s (if c == 58 then [] else current ++ c ∷ [])

-- pkSet[pk] = true for each key
unfoldable pub add_primary_keys : Dict Bytes → List Bytes → List Bytes
add_primary_keys [] pk_set = pk_set
add_primary_keys ((key, value) ∷ rest) pk_set =
    let pk = last_element key [] in
    add_primary_keys rest (if contains_name pk_set pk then pk_set else pk_set ++ pk ∷ [])

unfoldable pub rows_of : (ℕ → ℕ) → Schemas → Bytes → Dict Bytes → Result (List (List Bytes))
rows_of spare schemas table_name [] = ok []
rows_of spare schemas table_name ((key, value) ∷ rest) = do
  row ← deserialize_row_values spare schemas table_name value
  rows ← rows_of spare schemas table_name rest
  ok (row ∷ rows)

-- The entries whose keys the other map has not.
unfoldable pub absent_in : Dict Bytes → Dict Bytes → Dict Bytes
absent_in newer [] = []
absent_in newer ((key, value) ∷ rest) =
    let others = absent_in newer rest in
    elim (Dict.lookup key newer) [ none ↦ (key, value) ∷ others | some v ↦ others ]

-- A range over a map visits it in any order: `visit` and `visit_set` are the orders. `spare` is the
-- spare capacity of a buffer of each length.
module _ (bt : EntryTree) (spare : ℕ → ℕ) (visit : Dict Bytes → Dict Bytes)
    (visit_set : List Bytes → List Bytes) where
  unfoldable pub get_row_for_primary_key : Schemas → Db bt → Bytes → Bytes → Result (List Bytes)
  get_row_for_primary_key schemas db table_name primary_key_id = do
    value ← get bt db (table_name ++ (58 ∷ primary_key_id))
    deserialize_row_values spare schemas table_name value

  unfoldable pub full_table_scan : Schemas → Db bt → Bytes → Result (List (List Bytes))
  full_table_scan schemas db table_name =
      let key = table_name ++ codes ":" in
      let mem_table_map = Memtable.prefix_scan bt db.mem_table key in
      (do
        ss_table_map ← Scan.prefix_scan db.ss_table key
        newer ← rows_of spare schemas table_name (visit mem_table_map)
        older ← rows_of spare schemas table_name (absent_in mem_table_map (visit ss_table_map))
        ok (newer ++ older))

  unfoldable pub secondary_index_prefix_scan : Db bt → Bytes → Result (List Bytes)
  secondary_index_prefix_scan db prefix_key =
      let mem_table_map = Memtable.prefix_scan bt db.mem_table prefix_key in
      (do
        ss_table_map ← Scan.prefix_scan db.ss_table prefix_key
        ok (
            visit_set
              (add_primary_keys (visit mem_table_map) (add_primary_keys (visit ss_table_map) []))))

  -- The rows of the primary keys, one Get after the other.
  unfoldable pub rows_for : Schemas → Db bt → Bytes → List Bytes → Result (List (List Bytes))
  rows_for schemas db table_name [] = ok []
  rows_for schemas db table_name (pk ∷ pks) = do
    row ← get_row_for_primary_key schemas db table_name pk
    rows ← rows_for schemas db table_name pks
    ok (row ∷ rows)

  unfoldable pub run_full_table_scan_and_filter_conditions :
      Schemas → Db bt → SelectFromTable → Result (List (List Bytes))
  run_full_table_scan_and_filter_conditions schemas db input = do
    rows ← full_table_scan schemas db input.table_name
    filter_query_conditions (schema_of schemas input.table_name).column_details
        input.query_conditions [] rows

  -- The values of all conditions, in the order of the query, make the prefix.
  unfoldable pub query_prefix : SelectFromTable → SecondaryIndex → Bytes
  query_prefix input index =
      get_secondary_index_key_or_prefix input.table_name index.index_name
        (condition_values input.query_conditions) []

  filter_uncovered :
      Schemas
      → SelectFromTable
      → SecondaryIndex
      → List Bytes
      → List (List Bytes)
      → Result (List (List Bytes))
  filter_uncovered schemas input index covered rows =
      if all_columns_covered_by_secondary_index index covered
      then ok rows
      else filter_query_conditions (schema_of schemas input.table_name).column_details
          input.query_conditions covered rows

  unfoldable pub by_index :
      Schemas
      → Db bt
      → SelectFromTable
      → Option (SecondaryIndex × List Bytes)
      → Result (List (List Bytes))
  unfolding filter_uncovered
  by_index schemas db input none = run_full_table_scan_and_filter_conditions schemas db input
  by_index schemas db input (some (index, covered)) = do
    pks ← secondary_index_prefix_scan db (query_prefix input index)
    rows ← rows_for schemas db input.table_name pks
    filter_uncovered schemas input index covered rows

  unfoldable pub get_query_result_from_secondary_index_if_applicable :
      Schemas → Db bt → SelectFromTable → CreateTable → Result (List (List Bytes))
  get_query_result_from_secondary_index_if_applicable schemas db input schema =
      by_index schemas db input (
        get_secondary_index_for_query_if_applicable input.query_conditions schema.secondary_indexes)

  -- The branches behind the tests of the schema.
  unfoldable pub select_with_schema :
      Schemas → Db bt → SelectFromTable → CreateTable → Bytes → Result (List (List Bytes))
  select_with_schema schemas db input schema pk_column_name =
      let pointed = (do
        row ←
            get_row_for_primary_key schemas db input.table_name (first_value input.query_conditions)
        ok (row ∷ [])) in
      if str_eq pk_column_name []
      then err (error_text (codes "primary key column position is incorrect"))
      else if is_pointed_primary_key_query input.query_conditions pk_column_name
      then pointed
      else if is_full_table_scan_query input.query_conditions
      then full_table_scan schemas db input.table_name
      else get_query_result_from_secondary_index_if_applicable schemas db input schema

  unfoldable pub select_from_table : Schemas → Db bt → SelectFromTable → Result (List (List Bytes))
  select_from_table schemas db input = elim (Dict.lookup input.table_name schemas) [
    | none ↦
        err (error_text (codes "table with name \"" ++ (input.table_name ++ codes "\" not found")))
    | some schema ↦ select_with_schema schemas db input schema (pk_column_name schema)
  ]
