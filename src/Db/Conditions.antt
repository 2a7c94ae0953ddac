-- ===== src/Db/Conditions.antt =====
-- The conditions of a SELECT in db/select.go: how rows are filtered, and which secondary index is taken.
pub mod Filter
use golang_db.Base.{
  ℕ, ◌+◌, ◌==◌, Bool, true, false, not, ◌&&◌, Option, none, some, List, [], ◌∷◌, if◌then◌else◌,
  length, Result, ok, err, error_text, ◌>>=◌,
}
use golang_db.Base.Bytes.{Bytes, str_eq, str_lt, str_le}
use golang_db.Base.Text.{codes}
use golang_db.Base.Dict
use golang_db.Memtable
use golang_db.Sstable.Scan
use golang_db.Db.Schema.{Column, SecondaryIndex}
use golang_db.Db.Indexes.{value_at}
use golang_db.Sql.Parser.Select.{QueryCondition}

-- slices.Contains
unfoldable pub contains_name : List Bytes → Bytes → Bool
contains_name [] name = false
contains_name (x ∷ xs) name =
    let rest = contains_name xs name in if str_eq x name then true else rest

-- helper.go; -1 is `none`.
unfoldable pub col_position : List Column → Bytes → ℕ → Option ℕ
col_position [] name i = none
col_position (col ∷ cols) name i =
    if str_eq col.column_name name then some i else col_position cols name (i + 1)

unfoldable pub is_pointed_primary_key_query : List QueryCondition → Bytes → Bool
is_pointed_primary_key_query (c ∷ []) pk_column_name =
    str_eq c.column_name pk_column_name && str_eq c.query_type (codes "=")
is_pointed_primary_key_query _ pk_column_name = false

unfoldable pub is_full_table_scan_query : List QueryCondition → Bool
is_full_table_scan_query conditions = length conditions == 0

unfoldable pub compare_value : Bytes → Bytes → Bytes → Result Bool
compare_value query_type a b =
    if str_eq query_type (codes "=")
    then ok (str_eq a b)
    else if str_eq query_type (codes "<")
    then ok (str_lt a b)
    else if str_eq query_type (codes "<=")
    then ok (str_le a b)
    else if str_eq query_type (codes ">")
    then ok (str_lt b a)
    else if str_eq query_type (codes ">=")
    then ok (str_le b a)
    else err (error_text (codes "query type not supported"))

-- row[colPos] is read where the type is one of the five.
unfoldable pub is_query_condition_applicable : List Bytes → ℕ → QueryCondition → Result Bool
is_query_condition_applicable row col_pos c = do
  supported ← compare_value c.query_type [] []
  value ← value_at row col_pos
  compare_value c.query_type value c.value

unfoldable pub keep_if : Bool → List Bytes → List (List Bytes) → List (List Bytes)
keep_if applicable row rows = if applicable then row ∷ rows else rows

-- The loop over the rows for one condition.
unfoldable pub filter_rows : ℕ → QueryCondition → List (List Bytes) → Result (List (List Bytes))
filter_rows col_pos c [] = ok []
filter_rows col_pos c (row ∷ rows) = do
  applicable ← is_query_condition_applicable row col_pos c
  rest ← filter_rows col_pos c rows
  ok (keep_if applicable row rest)

filter_at : Option ℕ → QueryCondition → List (List Bytes) → Result (List (List Bytes))
filter_at none c rows = err (error_text (codes "unable to apply all query conditions"))
filter_at (some col_pos) c rows = filter_rows col_pos c rows

-- One condition.
unfoldable pub apply_condition :
    List Column → List Bytes → QueryCondition → List (List Bytes) → Result (List (List Bytes))
unfolding filter_at
apply_condition cols covered c rows =
    if contains_name covered c.column_name
    then ok rows
    else filter_at (col_position cols c.column_name 0) c rows

unfoldable pub filter_query_conditions :
    List Column → List QueryCondition → List Bytes → List (List Bytes) → Result (List (List Bytes))
filter_query_conditions cols [] covered rows = ok rows
filter_query_conditions cols (c ∷ conditions) covered rows = do
  rows' ← apply_condition cols covered c rows
  filter_query_conditions cols conditions covered rows'

abbrev pub condition_names : List QueryCondition → List Bytes
condition_names [] = []
condition_names (c ∷ conditions) = c.column_name ∷ condition_names conditions

abbrev pub condition_values : List QueryCondition → List Bytes
condition_values [] = []
condition_values (c ∷ conditions) = c.value ∷ condition_values conditions

-- The columns of the index, up to the first that no condition names.
unfoldable pub covered_columns : List QueryCondition → List Bytes → List Bytes
covered_columns conditions [] = []
covered_columns conditions (col ∷ cols) =
    let rest = covered_columns conditions cols in
    if contains_name (condition_names conditions) col then col ∷ rest else []

-- The test behind the loop over the columns of one index: an index that is covered whole ends the
-- search, and one of which a part is covered is the candidate.
unfoldable pub choose_index :
    List QueryCondition
    → List SecondaryIndex
    → Option (SecondaryIndex × List Bytes)
    → Option (SecondaryIndex × List Bytes)
choose_index conditions [] candidate = candidate
choose_index conditions (index ∷ rest) candidate =
    let covered = covered_columns conditions index.columns in
    let whole = some (index, covered) in
    let next =
      choose_index conditions rest
        (if length covered == 0 then candidate else some (index, covered)) in
    if not (length covered == 0) && (length covered == length index.columns) then whole else next

unfoldable pub get_secondary_index_for_query_if_applicable :
    List QueryCondition → List SecondaryIndex → Option (SecondaryIndex × List Bytes)
get_secondary_index_for_query_if_applicable conditions indexes =
    choose_index conditions indexes none

unfoldable pub all_columns_covered_by_secondary_index : SecondaryIndex → List Bytes → Bool
all_columns_covered_by_secondary_index index covered = length index.columns == length covered
