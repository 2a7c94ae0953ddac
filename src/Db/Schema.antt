-- ===== src/Db/Schema.antt =====
-- The schema of a table and its secondary indexes (sql_parser/ast.go) as db/create.go stores them: the
-- two encoders and the two decoders.
pub mod RoundTrip
mod Positions
pub mod Catalog
mod Tests
use golang_db.Base.{
  ℕ, zero, suc, ◌+◌, Option, none, some, List, [], ◌∷◌, ◌++◌, ltb, if◌then◌else◌, length, take,
  drop, get_elem?, Error, Result, ok, err, panic, out_of_fuel, missing_key_position,
  missing_data_type, missing_name_length, missing_name, missing_index_count,
  missing_index_name_length, missing_index_name, missing_column_count, missing_column_position,
  bad_column_position, column_not_found, ◌>>=◌,
}
use golang_db.Base.Bytes.{Bytes, str_eq, put_u32, get_u32}

-- DataType is a uint8: 0 is INT, 1 STRING and 2 BOOL.
pub record Column : Type 0 where
  pub column_name : Bytes
  pub data_type : ℕ

pub record SecondaryIndex : Type 0 where
  pub columns : List Bytes
  pub index_name : Bytes

pub record CreateTable : Type 0 where
  pub table_name : Bytes
  pub column_details : List Column
  pub primary_key_column_position : ℕ
  pub secondary_indexes : List SecondaryIndex

unfoldable pub serialise_columns : Bytes → List Column → Bytes
serialise_columns buf [] = buf
serialise_columns buf (col ∷ rest) =
    serialise_columns
      (((buf ++ col.data_type ∷ []) ++ put_u32 (length col.column_name)) ++ col.column_name) rest

unfoldable pub serialise_create_table_input : CreateTable → Bytes
serialise_create_table_input input =
    serialise_columns (put_u32 input.primary_key_column_position) input.column_details

-- if i+4 > len(buf), and the four bytes; the offset is returned behind them.
unfoldable pub read_u32 : Error → Bytes → ℕ → Result (ℕ × ℕ)
read_u32 e buf i =
    if ltb (length buf) (i + 4) then err e else ok (get_u32 (take 4 (drop i buf)), i + 4)

-- if i+int(n) > len(buf), and the `n` bytes
unfoldable pub read_string : Error → ℕ → Bytes → ℕ → Result (Bytes × ℕ)
read_string e n buf i = if ltb (length buf) (i + n) then err e else ok (take n (drop i buf), i + n)

-- buf[i] and the test behind it
unfoldable pub read_data_type : Bytes → ℕ → Result ℕ
read_data_type buf i = elim (get_elem? buf i) [
  | none ↦ err panic
  | some data_type ↦ if ltb (length buf) (i + 1) then err missing_data_type else ok data_type
]

-- One round of the loop of deserialiseCreateTableInput.
unfoldable pub read_column : Bytes → ℕ → Result (Column × ℕ)
read_column buf i = do
  data_type ← read_data_type buf i
  (name_length, i₁) ← read_u32 missing_name_length buf (i + 1)
  (name, i₂) ← read_string missing_name name_length buf i₁
  ok (record { column_name = name; data_type = data_type }, i₂)

-- Each round moves the offset by five at least: the length of the buffer is rounds enough.
unfoldable pub read_columns : ℕ → Bytes → ℕ → Result (List Column)
read_columns zero buf i = if ltb i (length buf) then err out_of_fuel else ok []
read_columns (suc fuel) buf i =
    let next = (do
      (col, i') ← read_column buf i
      rest ← read_columns fuel buf i'
      ok (col ∷ rest)) in
    if ltb i (length buf) then next else ok []

unfoldable pub deserialise_create_table_input : Bytes → Result CreateTable
deserialise_create_table_input buf = do
  (position, i) ← read_u32 missing_key_position buf 0
  column_details ← read_columns (length buf) buf i
  ok (record {
    table_name = [];
    column_details = column_details;
    primary_key_column_position = position;
    secondary_indexes = [];
  })

-- The loop for colIdx, in which the last column of that name counts; -1 is `none`.
unfoldable pub column_position : Bytes → List Column → ℕ → Option ℕ → Option ℕ
column_position name [] i found = found
column_position name (col ∷ rest) i found =
    column_position name rest (i + 1) (if str_eq col.column_name name then some i else found)

unfoldable pub append_position : Bytes → Option ℕ → Result Bytes
append_position buf none = err column_not_found
append_position buf (some i) = ok (buf ++ put_u32 i)

unfoldable pub serialise_positions : Bytes → List Column → List Bytes → Result Bytes
serialise_positions buf table_columns [] = ok buf
serialise_positions buf table_columns (col ∷ rest) = do
  buf' ← append_position buf (column_position col table_columns 0 none)
  serialise_positions buf' table_columns rest

unfoldable pub serialise_indexes : Bytes → List Column → List SecondaryIndex → Result Bytes
serialise_indexes buf table_columns [] = ok buf
serialise_indexes buf table_columns (index ∷ rest) = do
  buf' ←
      serialise_positions
        (((buf ++ put_u32 (length index.index_name)) ++ index.index_name)
          ++ put_u32 (length index.columns))
        table_columns index.columns
  serialise_indexes buf' table_columns rest

-- The columns are those of the table's schema in memory.
unfoldable pub serialise_secondary_index_catalog : List Column → List SecondaryIndex → Result Bytes
serialise_secondary_index_catalog table_columns indexes =
    serialise_indexes (put_u32 (length indexes)) table_columns indexes

name_at : Option Column → Result Bytes
name_at none = err bad_column_position
name_at (some col) = ok col.column_name

unfoldable pub read_positions : ℕ → List Column → Bytes → ℕ → Result (List Bytes × ℕ)
unfolding name_at
read_positions zero table_columns buf i = ok ([], i)
read_positions (suc n) table_columns buf i = do
  (position, i₁) ← read_u32 missing_column_position buf i
  name ← name_at (get_elem? table_columns position)
  (rest, i₂) ← read_positions n table_columns buf i₁
  ok (name ∷ rest, i₂)

unfoldable pub read_indexes : ℕ → List Column → Bytes → ℕ → Result (List SecondaryIndex × ℕ)
read_indexes zero table_columns buf i = ok ([], i)
read_indexes (suc n) table_columns buf i = do
  (name_length, i₁) ← read_u32 missing_index_name_length buf i
  (name, i₂) ← read_string missing_index_name name_length buf i₁
  (num_columns, i₃) ← read_u32 missing_column_count buf i₂
  (columns, i₄) ← read_positions num_columns table_columns buf i₃
  (rest, i₅) ← read_indexes n table_columns buf i₄
  ok (record { columns = columns; index_name = name } ∷ rest, i₅)

unfoldable pub deserialise_secondary_index_catalog :
    Bytes → List Column → Result (List SecondaryIndex)
deserialise_secondary_index_catalog buf table_columns = do
  (num_indexes, i) ← read_u32 missing_index_count buf 0
  (indexes, end) ← read_indexes num_indexes table_columns buf i
  ok indexes
