-- ===== src/Db/Indexes.antt =====
-- The keys of secondary indexes (db/db.go).
pub mod Prefixes
use golang_db.Base.{
  ℕ, ◌+◌, ◌==◌, Option, none, some, List, [], ◌∷◌, ◌++◌, if◌then◌else◌, length, get_elem?, Result,
  ok, err, panic, error_text, ◌>>=◌,
}
use golang_db.Base.Bytes.{Bytes, str_eq}
use golang_db.Base.Text.{codes}
use golang_db.Db.Schema.{Column, CreateTable}

-- for _, colValue := range columnValues { indexColValues += (":" + colValue) }
unfoldable pub colon_values : List Bytes → Bytes
colon_values [] = []
colon_values (value ∷ rest) = 58 ∷ (value ++ colon_values rest)

-- An empty `primary_key_value` makes a prefix.
unfoldable pub get_secondary_index_key_or_prefix : Bytes → Bytes → List Bytes → Bytes → Bytes
get_secondary_index_key_or_prefix table_name index_name column_values primary_key_value =
    codes "index:"
    ++ (table_name
        ++ (58
            ∷ (index_name
                ++ (colon_values column_values
                    ++ (if str_eq primary_key_value []
                        then codes ":"
                        else 58 ∷ primary_key_value)))))

-- insertIntoTableInput.ColumnValues[i]
unfoldable pub value_at : List Bytes → ℕ → Result Bytes
value_at vals i = elim (get_elem? vals i) [ none ↦ err panic | some value ↦ ok value ]

-- What the loops have collected: the values of the columns and the value of the primary key.
pub record IndexValues : Type 0 where
  pub column_values : List Bytes
  pub pk_value : Bytes

unfoldable pub add_if_named : Bytes → Column → List Bytes → ℕ → List Bytes → Result (List Bytes)
add_if_named name col vals i collected =
    let added = (do value ← value_at vals i; ok (collected ++ value ∷ [])) in
    if str_eq col.column_name name then added else ok collected

-- The loop over the columns of the table, from the position `i`.
unfoldable pub collect_column :
    ℕ → List Bytes → Bytes → ℕ → List Column → IndexValues → Result IndexValues
collect_column pk_position vals name i [] s = ok s
collect_column pk_position vals name i (col ∷ cols) s = do
  column_values ← add_if_named name col vals i s.column_values
  pk_value ← if i == pk_position then value_at vals i else ok s.pk_value
  collect_column pk_position vals name (i + 1) cols
      (record { column_values = column_values; pk_value = pk_value })

unfoldable pub collect_columns :
    CreateTable → List Bytes → List Bytes → IndexValues → Result IndexValues
collect_columns table vals [] s = ok s
collect_columns table vals (name ∷ names) s = do
  s' ← collect_column table.primary_key_column_position vals name 0 table.column_details s
  collect_columns table vals names s'

-- The tests behind the loops.
unfoldable pub check_values : List Bytes → IndexValues → Result IndexValues
check_values names s =
    if length s.column_values == length names
    then (if str_eq s.pk_value []
        then err (error_text (codes "primary key column value not found"))
        else ok s)
    else err (error_text (codes "all column values not found"))

unfoldable pub get_index_and_primary_key_column_values_in_index_sequence :
    CreateTable → List Bytes → List Bytes → Result IndexValues
get_index_and_primary_key_column_values_in_index_sequence table names vals = do
  s ← collect_columns table vals names (record { column_values = []; pk_value = [] })
  check_values names s
