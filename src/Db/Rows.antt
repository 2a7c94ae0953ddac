-- ===== src/Db/Rows.antt =====
-- A row as the bytes of its values: serialiseInsertIntoTableInput of db/db.go and deserializeRowValues of
-- db/select.go.

use golang_db.Sstable.Table.{zeros}
pub mod RoundTrip
use golang_db.Base.{
  ℕ, zero, suc, ◌+◌, ◌%◌, ◌==◌, Bool, ◌||◌, Option, none, some, List, [], ◌∷◌, ◌++◌, ltb,
  if◌then◌else◌, length, take, drop, get_elem?, Error, Result, ok, err, panic, error_text, ◌>>=◌,
}
use golang_db.Base.Bytes.{Bytes, put_u32, get_u32}
use golang_db.Base.Text.{codes}
use golang_db.Base.Decimal.{decimal}
use golang_db.Base.Integers.{ℤ, pos, negsuc, atoi, to_u32, binary}
use golang_db.Base.Dict
use golang_db.Base.Dict.{Dict}
use golang_db.Db.Schema.{Column, CreateTable}
use golang_db.Sql.Parser.Insert.{InsertIntoTable}

-- The schemas of the tables by their names. A name without a schema gives the zero value.
abbrev pub Schemas : Type 0
Schemas = Dict CreateTable

abbrev pub or_zero : Option CreateTable → CreateTable
or_zero none = record {
  table_name = [];
  column_details = [];
  primary_key_column_position = 0;
  secondary_indexes = [];
}
or_zero (some table) = table

unfoldable pub schema_of : Schemas → Bytes → CreateTable
schema_of schemas name = or_zero (Dict.lookup name schemas)

-- The bit of a BOOL.
unfoldable pub bool_byte : ℤ → Result Bytes
bool_byte (pos n) =
    if n == 0 || n == 1
    then ok (n ∷ [])
    else err (error_text (codes "only 0 and 1 values supported for BOOL data type"))
bool_byte (negsuc n) = err (error_text (codes "only 0 and 1 values supported for BOOL data type"))

-- The bytes that the switch appends.
unfoldable pub serialise_value : ℕ → Bytes → Result Bytes
serialise_value data_type value =
    let int = (do n ← atoi value; ok (put_u32 (to_u32 n))) in
    let bool = (do n ← atoi value; bool_byte n) in
    if data_type == 0
    then int
    else if data_type == 1
    then ok (put_u32 (length value) ++ value)
    else if data_type == 2
    then bool
    else ok []

-- table.ColumnDetails[i]
unfoldable pub column_at : CreateTable → ℕ → Result Column
column_at table i = elim (get_elem? table.column_details i) [ none ↦ err panic | some col ↦ ok col ]

-- The loop over the values from the position `i`, with the value of the primary key so far.
unfoldable pub serialise_values :
    CreateTable → ℕ → List Bytes → Bytes → Bytes → Result (Bytes × Bytes)
serialise_values table i [] primary_key_value buf = ok (primary_key_value, buf)
serialise_values table i (value ∷ rest) primary_key_value buf = do
  col ← column_at table i
  bytes ← serialise_value col.data_type value
  serialise_values table (i + 1) rest
      (if i == table.primary_key_column_position then value else primary_key_value) (buf ++ bytes)

unfoldable pub serialise_insert_into_table_input :
    Schemas → InsertIntoTable → Result (Bytes × Bytes)
serialise_insert_into_table_input schemas input = do
  (primary_key_value, buf) ←
      serialise_values (schema_of schemas input.table_name) 0 input.column_values [] []
  ok (input.table_name ++ (58 ∷ primary_key_value), buf)

-- A slice buf[i:i+n] of []byte(value) and the offset behind it. The buffer has `spare` zeros behind its
-- end, as many as the run-time has rounded its capacity up by, and a slice may reach into them: only
-- behind the capacity it is a fault.
unfoldable pub slice : ℕ → Bytes → ℕ → ℕ → Result (Bytes × ℕ)
slice spare buf i n =
    if ltb (length buf + spare) (i + n)
    then err panic
    else ok (take n (drop i (buf ++ zeros spare)), i + n)

-- uint64(valueBuf[i]) in base two; an index is checked against the length.
unfoldable pub bool_value : Option ℕ → ℕ → Result (List Bytes × ℕ)
bool_value none i = err panic
bool_value (some b) i = ok (binary b ∷ [], i + 1)

-- The value of a column, where it has one, and the offset behind it.
unfoldable pub deserialize_value : ℕ → ℕ → Bytes → ℕ → Result (List Bytes × ℕ)
deserialize_value spare data_type buf i =
    let int = (do (bytes, i') ← slice spare buf i 4; ok (decimal (get_u32 bytes) ∷ [], i')) in
    let string = (do
      (bytes, i₁) ← slice spare buf i 4
      (value, i₂) ← slice spare buf i₁ (get_u32 bytes)
      ok (value ∷ [], i₂)) in
    if data_type == 0
    then int
    else if data_type == 1
    then string
    else if data_type == 2
    then bool_value (get_elem? buf i) i
    else ok ([], i)

unfoldable pub deserialize_values : ℕ → List Column → Bytes → ℕ → Result (List Bytes)
deserialize_values spare [] buf i = ok []
deserialize_values spare (col ∷ cols) buf i = do
  (values, i') ← deserialize_value spare col.data_type buf i
  rest ← deserialize_values spare cols buf i'
  ok (values ++ rest)

-- `spare` is the number of spare bytes of a buffer, by its length.
unfoldable pub deserialize_row_values : (ℕ → ℕ) → Schemas → Bytes → Bytes → Result (List Bytes)
deserialize_row_values spare schemas table_name value =
    deserialize_values (spare (length value)) (schema_of schemas table_name).column_details value 0
