-- ===== src/Db/Schema/RoundTrip.antt =====
-- The schema that db/create.go stores is read back.
use golang_db.Base.Cursor.{drop-behind, length-left}
use golang_db.Base.{
  ℕ, zero, suc, ◌+◌, ◌≤◌, ◌≡◌, refl, sym, ap, ◌∙◌, some, false, List, [], ◌∷◌, ◌++◌, arith, ltb,
  lt→ltb, ge→ltb, length, drop, get_elem?, length-append, take-append, append_assoc, append-nil,
  Error, ok,
}
use golang_db.Base.Bytes.{Bytes, IsU32, put_u32, length-put_u32, get-put_u32_word}
use golang_db.Db.Schema.{
  Column, CreateTable, serialise_columns, serialise_create_table_input, read_u32, read_string,
  read_data_type, read_column, read_columns, deserialise_create_table_input,
}

pub read_string_lem :
    (e : Error) (buf s rest : Bytes) (n i : ℕ)
    → i ≤ length buf
    → n ≡ length s
    → drop i buf ≡ s ++ rest
    → read_string e n buf i ≡ ok (s, i + n)
unfolding read_string
read_string_lem e buf s rest n i hi hn h = rw (
  ge→ltb (length buf) (i + n) (omega (arith, length-left buf s rest i h)),
  h,
  take-append n s rest hn,
)

pub read_u32_lem :
    (e : Error) (buf rest : Bytes) (n i : ℕ)
    → i ≤ length buf
    → IsU32 n
    → drop i buf ≡ put_u32 n ++ rest
    → read_u32 e buf i ≡ ok (n, i + 4)
unfolding read_u32
read_u32_lem e buf rest n i hi small h = rw (
  ge→ltb (length buf) (i + 4)
      (omega (arith, length-left buf (put_u32 n) rest i h, length-put_u32 n)),
  h,
  take-append 4 (put_u32 n) rest (sym (length-put_u32 n)),
  get-put_u32_word n small,
)

-- The bytes of columns.
abbrev column_bytes : Column → Bytes
column_bytes c = c.data_type ∷ (put_u32 (length c.column_name) ++ c.column_name)

abbrev columns_bytes : List Column → Bytes
columns_bytes [] = []
columns_bytes (c ∷ cs) = column_bytes c ++ columns_bytes cs

serialise_columns_lem :
    (buf : Bytes) (cs : List Column) → serialise_columns buf cs ≡ buf ++ columns_bytes cs
unfolding serialise_columns
serialise_columns_lem buf [] = sym (append-nil buf)
serialise_columns_lem buf (c ∷ cs) =
    serialise_columns_lem
      (((buf ++ c.data_type ∷ []) ++ put_u32 (length c.column_name)) ++ c.column_name) cs
    ∙ ap (λ (t : Bytes). t ++ columns_bytes cs)
        (append_assoc (buf ++ c.data_type ∷ []) (put_u32 (length c.column_name)) c.column_name
          ∙ append_assoc buf (c.data_type ∷ []) (put_u32 (length c.column_name) ++ c.column_name))
    ∙ append_assoc buf (column_bytes c) (columns_bytes cs)

get_elem?-drop : (buf rest : Bytes) (i x : ℕ) → drop i buf ≡ x ∷ rest → get_elem? buf i ≡ some x
get_elem?-drop [] rest zero x h = cc
get_elem?-drop [] rest (suc i) x h = cc
get_elem?-drop (y ∷ buf) rest zero x h = ground arith
get_elem?-drop (y ∷ buf) rest (suc i) x h = get_elem?-drop buf rest i x h

module _ (buf rest : Bytes) (c : Column) (i : ℕ) (small : IsU32 (length buf)) (hi : i ≤ length buf)
    (h : drop i buf ≡ column_bytes c ++ rest) where
  behind_type : drop (i + 1) buf ≡ put_u32 (length c.column_name) ++ (c.column_name ++ rest)
  behind_type =
      drop-behind buf (c.data_type ∷ []) ((put_u32 (length c.column_name) ++ c.column_name) ++ rest)
        i 1 refl h
      ∙ append_assoc (put_u32 (length c.column_name)) c.column_name rest

  behind_length : drop (i + 1 + 4) buf ≡ c.column_name ++ rest
  behind_length =
      drop-behind buf (put_u32 (length c.column_name)) (c.column_name ++ rest) (i + 1) 4
        (length-put_u32 (length c.column_name)) behind_type

  pub behind_column : drop (i + 1 + 4 + length c.column_name) buf ≡ rest
  behind_column = drop-behind buf c.column_name rest (i + 1 + 4) _ refl behind_length

  room : i + 5 + length c.column_name ≤ length buf
  room = omega (
    arith,
    length-left buf (column_bytes c) rest i h,
    length-append (put_u32 (length c.column_name)) c.column_name,
    length-put_u32 (length c.column_name),
  )

  read_data_type_lem : read_data_type buf i ≡ ok c.data_type
  unfolding read_data_type
  read_data_type_lem = rw (
    get_elem?-drop buf _ i c.data_type h,
    read_data_type,
    ge→ltb (length buf) (i + 1) (omega (arith, room)),
  )

  pub read_column_lem : read_column buf i ≡ ok (c, i + 1 + 4 + length c.column_name)
  unfolding read_column
  read_column_lem = rw (
    read_data_type_lem,
    read_u32_lem _ buf _ (length c.column_name) (i + 1) (omega (arith, room)) (omega (arith, room))
        behind_type,
    read_string_lem _ buf c.column_name rest (length c.column_name) (i + 1 + 4)
        (omega (arith, room)) refl behind_length,
  )

read_columns_lem :
    (cs : List Column) (fuel i : ℕ) (buf : Bytes)
    → IsU32 (length buf)
    → i ≤ length buf
    → drop i buf ≡ columns_bytes cs
    → length cs ≤ fuel
    → read_columns fuel buf i ≡ ok cs
unfolding read_columns
read_columns_lem [] fuel i buf small hi h hf = ends fuel
  where
    done : ltb i (length buf) ≡ false
    done = ge→ltb i (length buf) (omega (arith, length-left buf [] [] i (h ∙ sym (append-nil []))))

    ends : (fuel : ℕ) → read_columns fuel buf i ≡ ok []
    ends zero = rw done
    ends (suc fuel) = rw done
read_columns_lem (c ∷ cs) zero i buf small hi h hf = absurd (omega arith)
read_columns_lem (c ∷ cs) (suc fuel) i buf small hi h hf = rw (
  lt→ltb i (length buf) (omega (arith, length-left buf (column_bytes c) (columns_bytes cs) i h)),
  read_column_lem buf (columns_bytes cs) c i small hi h,
  read_columns_lem cs fuel (i + 1 + 4 + length c.column_name) buf small
      (omega (arith, room buf (columns_bytes cs) c i small hi h))
      (behind_column buf (columns_bytes cs) c i small hi h) (omega arith),
)

length-le-columns_bytes : (cs : List Column) → length cs ≤ length (columns_bytes cs)
length-le-columns_bytes [] = omega arith
length-le-columns_bytes (c ∷ cs) =
    omega (arith, length-le-columns_bytes cs, length-append (column_bytes c) (columns_bytes cs))

-- A schema whose bytes fit 32-bit lengths is read back: its columns with their types, and the position
-- of its primary key. The name of the table and its indexes are not part of these bytes.
pub create_table_round_trip :
    (t : CreateTable)
    → IsU32 t.primary_key_column_position
    → IsU32 (length (serialise_create_table_input t))
    → deserialise_create_table_input (serialise_create_table_input t)
      ≡ ok (record t { table_name = []; secondary_indexes = [] })
unfolding deserialise_create_table_input
create_table_round_trip t position small = rw (
  read_u32_lem _ buf (columns_bytes t.column_details) t.primary_key_column_position 0 (omega arith)
      position shape,
  read_columns_lem t.column_details (length buf) 4 buf small (omega (arith, long))
      (drop-behind buf (put_u32 t.primary_key_column_position) (columns_bytes t.column_details) 0 4
        (length-put_u32 t.primary_key_column_position) shape)
      (omega (arith, long, length-le-columns_bytes t.column_details)),
)
  where
    buf : Bytes
    buf = serialise_create_table_input t

    shape : drop 0 buf ≡ put_u32 t.primary_key_column_position ++ columns_bytes t.column_details
    shape =
        unfold serialise_create_table_input in
        serialise_columns_lem (put_u32 t.primary_key_column_position) t.column_details

    long : length buf ≡ 4 + length (columns_bytes t.column_details)
    long = omega (
      arith,
      ap length shape,
      length-append (put_u32 t.primary_key_column_position) (columns_bytes t.column_details),
      length-put_u32 t.primary_key_column_position,
    )
