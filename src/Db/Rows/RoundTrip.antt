-- ===== src/Db/Rows/RoundTrip.antt =====
-- A row that INSERT stores is read back.
use golang_db.Base.{drop-append_le, ◌≤◌, ◌<◌}
use golang_db.Sstable.Table.{zeros}
use golang_db.Base.{
  ℕ, zero, suc, ◌+◌, ◌%◌, ◌^◌, ◌≤◌, ◌<◌, ◌≡◌, refl, sym, ◌∙◌, ◌⊎◌, inl, inr, true, false, ◌==◌,
  ge→ltb, some, List, [], ◌∷◌, ◌++◌, append_assoc, append-nil, ltb, if◌then◌else◌, length,
  length-append, drop, take-append, get_elem?, get_elem?-drop, drop-suc, arith, ok,
}
use golang_db.Base.Bytes.{Bytes, IsU32, put_u32, get-put_u32_word, length-put_u32}
use golang_db.Base.Text.{codes}
use golang_db.Base.Cursor.{drop-behind, length-left}
use golang_db.Base.Decimal.{decimal}
use golang_db.Base.Integers.{atoi, atoi-decimal, to_u32, binary, bits, digits_value, magnitude}
use golang_db.Db.Schema.{Column, CreateTable}
use golang_db.Sql.Parser.Insert.{InsertIntoTable}
use golang_db.Db.Rows.{
  Schemas, schema_of, bool_byte, serialise_value, column_at, serialise_values,
  serialise_insert_into_table_input, slice, bool_value, deserialize_value, deserialize_values,
  deserialize_row_values,
}

-- What a value of a column is read back as: an INT loses what 32 bits do not hold.
abbrev pub IsStoredAs : ℕ → Bytes → Bytes → Type 0
IsStoredAs zero v w = (n : ℕ) × (n < 2 ^ 63) × (v ≡ decimal n) × (w ≡ decimal (n % 2 ^ 32))
IsStoredAs (suc zero) v w = IsU32 (length v) × (w ≡ v)
IsStoredAs (suc (suc zero)) v w = ((v ≡ codes "0") ⊎ (v ≡ codes "1")) × (w ≡ v)
IsStoredAs (suc (suc (suc n))) v w = ⊥

abbrev pub AreStoredAs : List Column → List Bytes → List Bytes → Type 0
AreStoredAs [] [] [] = Unit {0}
AreStoredAs (c ∷ cols) (v ∷ vals) (w ∷ stored) =
    IsStoredAs c.data_type v w × AreStoredAs cols vals stored
AreStoredAs _ _ _ = ⊥

slice_lem :
    (spare : ℕ) (buf bytes rest : Bytes) (i n : ℕ)
    → i ≤ length buf
    → drop i buf ≡ bytes ++ rest
    → length bytes ≡ n
    → slice spare buf i n ≡ ok (bytes, i + n)
unfolding slice
slice_lem spare buf bytes rest i n h e len =
    let inside : ltb (length buf + spare) (i + n) ≡ false =
      ge→ltb (length buf + spare) (i + n) (omega (arith, length-left buf bytes rest i e)) in
    rw
      (
        inside,
        drop-append_le i buf (zeros spare) h,
        e,
        append_assoc bytes rest (zeros spare),
        take-append n bytes (rest ++ zeros spare) (sym len),
      )
      refl

-- The bytes of a value, wherever they stand.
abbrev IsReadAs : ℕ → Bytes → Bytes → Type 0
IsReadAs data_type bytes w =
    (spare : ℕ) (buf rest : Bytes) (i : ℕ)
    → i ≤ length buf
    → drop i buf ≡ bytes ++ rest
    → deserialize_value spare data_type buf i ≡ ok (w ∷ [], i + length bytes)

int_read : (m : ℕ) → IsU32 m → IsReadAs 0 (put_u32 m) (decimal m)
unfolding deserialize_value
int_read m small spare buf rest i h e =
    let four = length-put_u32 m in
    rw (slice_lem spare buf (put_u32 m) rest i 4 h e four, get-put_u32_word m small, four) refl

string_read : (v : Bytes) → IsU32 (length v) → IsReadAs 1 (put_u32 (length v) ++ v) v
unfolding deserialize_value
string_read v small spare buf rest i h e =
    let four = length-put_u32 (length v) in
    let e' = e ∙ append_assoc (put_u32 (length v)) v rest in
    let inside = length-left buf (put_u32 (length v)) (v ++ rest) i e' in
    let behind = drop-behind buf (put_u32 (length v)) (v ++ rest) i 4 four e' in
    let total : i + 4 + length v ≡ i + length (put_u32 (length v) ++ v) =
      omega (arith, length-append (put_u32 (length v)) v) in
    rw
      (
        slice_lem spare buf (put_u32 (length v)) (v ++ rest) i 4 h e' four,
        get-put_u32_word (length v) small,
        slice_lem spare buf v rest (i + 4) (length v) (omega (arith, length-append v rest)) behind
            refl,
        total,
      )
      refl

bool_read : (b : ℕ) (w : Bytes) → binary b ≡ w → IsReadAs 2 (b ∷ []) w
unfolding deserialize_value bool_value
bool_read b w text spare buf rest i h e =
    let there : get_elem? buf i ≡ some b = get_elem?-drop buf i b rest e in rw (there, text) refl

-- The bytes that a value is stored as.
abbrev IsSerialised : ℕ → Bytes → Bytes → Type 0
IsSerialised data_type v w =
    (bytes : Bytes) × (serialise_value data_type v ≡ ok bytes)
    × (0 < length bytes)
    × IsReadAs data_type bytes w

serialise_value-IsSerialised :
    (data_type : ℕ) (v w : Bytes) → IsStoredAs data_type v w → IsSerialised data_type v w
unfolding serialise_value to_u32 bool_byte atoi magnitude digits_value binary bits
serialise_value-IsSerialised zero v w (n, h, e, e') = (
  put_u32 (n % 2 ^ 32),
  rw (e, atoi-decimal n h) refl,
  omega (arith, length-put_u32 (n % 2 ^ 32)),
  rw e' (int_read (n % 2 ^ 32) (omega arith)),
)
serialise_value-IsSerialised (suc zero) v w (h, e) = (
  put_u32 (length v) ++ v,
  refl,
  omega (arith, length-append (put_u32 (length v)) v, length-put_u32 (length v)),
  rw e (string_read v h),
)
serialise_value-IsSerialised (suc (suc zero)) v w (inl e, e') =
    (0 ∷ [], rw e refl, omega arith, rw (e', e) (bool_read 0 (codes "0") refl))
serialise_value-IsSerialised (suc (suc zero)) v w (inr e, e') =
    (1 ∷ [], rw e refl, omega arith, rw (e', e) (bool_read 1 (codes "1") refl))
serialise_value-IsSerialised (suc (suc (suc n))) v w h = elim h [ ]

-- The value at the position of the key.
abbrev key_value : ℕ → ℕ → List Bytes → Bytes → Bytes
key_value position i [] key = key
key_value position i (v ∷ vals) key =
    key_value position (i + 1) vals (if i == position then v else key)

column_at_lem :
    (table : CreateTable) (i : ℕ) (c : Column)
    → get_elem? table.column_details i ≡ some c
    → column_at table i ≡ ok c
unfolding column_at
column_at_lem table i c h = rw (h, column_at) refl

-- The values from the position `i` on, with the columns from there on.
serialise_values-AreStoredAs :
    (table : CreateTable) (i : ℕ) (cols : List Column) (vals stored : List Bytes) (key buf : Bytes)
    → drop i table.column_details ≡ cols
    → AreStoredAs cols vals stored
    → (bytes : Bytes) × (serialise_values table i vals key buf
        ≡ ok (key_value table.primary_key_column_position i vals key, buf ++ bytes))
      × (length vals ≤ length bytes)
      × ((spare : ℕ) (front rest : Bytes) (k : ℕ)
          → k ≤ length front
          → drop k front ≡ bytes ++ rest
          → deserialize_values spare cols front k ≡ ok stored)
unfolding serialise_values deserialize_values
serialise_values-AreStoredAs table i [] [] [] key buf e h =
    ([], rw (append-nil buf) refl, omega arith, λ spare front rest k le d. refl)
serialise_values-AreStoredAs table i [] [] (w ∷ stored) key buf e h = elim h [ ]
serialise_values-AreStoredAs table i [] (v ∷ vals) stored key buf e h = elim h [ ]
serialise_values-AreStoredAs table i (c ∷ cols) [] stored key buf e h = elim h [ ]
serialise_values-AreStoredAs table i (c ∷ cols) (v ∷ vals) [] key buf e h = elim h [ ]
serialise_values-AreStoredAs table i (c ∷ cols) (v ∷ vals) (w ∷ stored) key buf e (h, more) =
    let there : get_elem? table.column_details i ≡ some c =
      get_elem?-drop table.column_details i c cols e in
    let (bytes₁, e₁, some₁, read₁) = serialise_value-IsSerialised c.data_type v w h in
    let behind : drop (i + 1) table.column_details ≡ cols =
      drop-suc table.column_details i c cols e in
    let key' = if i == table.primary_key_column_position then v else key in
    let (bytes₂, e₂, some₂, read₂) =
      serialise_values-AreStoredAs table (i + 1) cols vals stored key' (buf ++ bytes₁) behind
        more in
    (
      bytes₁ ++ bytes₂,
      rw (column_at_lem table i c there, e₁, e₂, append_assoc buf bytes₁ bytes₂) refl,
      omega (arith, length-append bytes₁ bytes₂, some₁, some₂),
      λ spare front rest k le d.
          let d' = d ∙ append_assoc bytes₁ bytes₂ rest in
          let inside = length-left front bytes₁ (bytes₂ ++ rest) k d' in
          let d₂ = drop-behind front bytes₁ (bytes₂ ++ rest) k (length bytes₁) refl d' in
          rw
            (
              read₁ spare front (bytes₂ ++ rest) k le d',
              read₂ spare front rest (k + length bytes₁) (omega arith) d₂,
            )
            refl,
    )

key_value-before :
    (position i : ℕ) (vals : List Bytes) (key : Bytes)
    → position < i
    → key_value position i vals key ≡ key
key_value-before position i [] key h = refl
key_value-before position i (v ∷ vals) key h =
    let other : (i == position) ≡ false = ground arith in
    rw other (key_value-before position (i + 1) vals key (omega arith))

key_value-at :
    (position i n : ℕ) (vals : List Bytes) (key v : Bytes)
    → position ≡ i + n
    → get_elem? vals n ≡ some v
    → key_value position i vals key ≡ v
key_value-at position i n [] key v e h = cc
key_value-at position i zero (w ∷ vals) key v e h =
    let same : (i == position) ≡ true = ground arith in
    let taken : w ≡ v = cc in
    rw same (key_value-before position (i + 1) vals w (omega arith) ∙ taken)
key_value-at position i (suc n) (w ∷ vals) key v e h =
    key_value-at position (i + 1) n vals (if i == position then w else key) v (omega arith) h

-- A row whose values fit the columns of its table, an INT being the digits of a number below 2 ^ 63, a
-- STRING a text of fewer than 2 ^ 32 bytes and a BOOL 0 or 1, is stored under the key of the table's name, a
-- colon and the value at the position of the primary key, and read back as it was, but for an INT of
-- 2 ^ 32 or more, of which the low 32 bits come back, whatever the capacity of the buffer it is read from.
-- It has as many bytes as values, or more.
pub deserialize-serialise_row :
    (schemas : Schemas) (input : InsertIntoTable) (stored : List Bytes) (key : Bytes)
    → AreStoredAs (schema_of schemas input.table_name).column_details input.column_values stored
    → get_elem? input.column_values (schema_of schemas input.table_name).primary_key_column_position
      ≡ some key
    → (buf : Bytes) × (serialise_insert_into_table_input schemas input
        ≡ ok (input.table_name ++ (58 ∷ key), buf))
      × ((spare : ℕ → ℕ) → deserialize_row_values spare schemas input.table_name buf ≡ ok stored)
      × (length input.column_values ≤ length buf)
unfolding serialise_insert_into_table_input deserialize_row_values
deserialize-serialise_row schemas input stored key fits there =
    let table = schema_of schemas input.table_name in
    let (bytes, e, filled, read) =
      serialise_values-AreStoredAs table 0 table.column_details input.column_values stored [] []
        refl fits in
    let at_key =
      key_value-at table.primary_key_column_position 0 table.primary_key_column_position
        input.column_values [] key (omega arith) there in
    (
      bytes,
      rw (e, at_key) refl,
      λ spare. read (spare (length bytes)) bytes [] 0 (omega arith) (sym (append-nil bytes)),
      filled,
    )
