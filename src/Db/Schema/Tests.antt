-- ===== src/Db/Schema/Tests.antt =====
-- A schema of two columns with an index, stored and read back.
use golang_db.Base.{◌≡◌, refl, [], ◌∷◌, arith, length, ok}
use golang_db.Base.Bytes.{Bytes, IsU32, cmp, put_u32}
use golang_db.Db.Schema.{
  CreateTable, serialise_columns, serialise_create_table_input, column_position, append_position,
  serialise_positions, serialise_indexes, serialise_secondary_index_catalog,
}

abbrev id : Bytes
id = 105 ∷ 100 ∷ []

abbrev name : Bytes
name = 110 ∷ []

abbrev users : CreateTable
users = record {
  table_name = 117 ∷ [];
  column_details =
      record { column_name = id; data_type = 0 }
      ∷ record { column_name = name; data_type = 1 }
      ∷ [];
  primary_key_column_position = 0;
  secondary_indexes = record { columns = name ∷ id ∷ []; index_name = 120 ∷ [] } ∷ [];
}

users_fit : IsU32 (length (serialise_create_table_input users))
unfolding serialise_create_table_input serialise_columns put_u32
users_fit = omega arith

-- One index of the columns 1 and 0.
abbrev catalog : Bytes
catalog = 0 ∷ 0 ∷ 0 ∷ 1 ∷ 0 ∷ 0 ∷ 0 ∷ 1 ∷ 120 ∷ 0 ∷ 0 ∷ 0 ∷ 2 ∷ 0 ∷ 0 ∷ 0 ∷ 1 ∷ 0 ∷ 0 ∷ 0 ∷ 0 ∷ []

stores : serialise_secondary_index_catalog users.column_details users.secondary_indexes ≡ ok catalog
unfolding serialise_secondary_index_catalog serialise_indexes serialise_positions column_position
    append_position cmp put_u32
stores = refl
