-- ===== src/Db/Schema/Catalog.antt =====
-- The catalog of secondary indexes that db/create.go stores is read back.
use golang_db.Base.Cursor.{drop-behind, length-left}
use golang_db.Base.{
  ℕ, ◌+◌, ◌≤◌, ◌≡◌, refl, sym, ap, ◌∙◌, List, [], ◌∷◌, ◌++◌, arith, length, drop, length-append,
  append_assoc, append-nil, ok, >>=-eq-ok,
}
use golang_db.Base.Bytes.{Bytes, IsU32, put_u32, length-put_u32}
use golang_db.Db.Schema.{
  Column, SecondaryIndex, serialise_positions, serialise_indexes, serialise_secondary_index_catalog,
  read_indexes, deserialise_secondary_index_catalog,
}
use golang_db.Db.Schema.Positions.{ReadsPositions, serialise_positions_inv}
use golang_db.Db.Schema.RoundTrip.{read_u32_lem, read_string_lem}

module _ (cols : List Column) (small : IsU32 (length cols)) where
  -- The bytes that the encoder has appended are what the decoder takes for the indexes.
  abbrev ReadsIndexes : List SecondaryIndex → Bytes → Type 0
  ReadsIndexes indexes bytes =
      (buf rest : Bytes) (i : ℕ)
      → i ≤ length buf
      → IsU32 (length buf)
      → drop i buf ≡ bytes ++ rest
      → read_indexes (length indexes) cols buf i ≡ ok (indexes, i + length bytes)

  abbrev index_bytes : SecondaryIndex → Bytes → Bytes
  index_bytes index positions =
      put_u32 (length index.index_name)
      ++ (index.index_name ++ (put_u32 (length index.columns) ++ positions))

  module _ (index : SecondaryIndex) (positions buf rest : Bytes) (i : ℕ) (hi : i ≤ length buf)
      (word : IsU32 (length buf)) (many : length index.columns ≤ length positions)
      (h : drop i buf ≡ index_bytes index positions ++ rest) where
    at_name :
        drop i buf
        ≡ put_u32 (length index.index_name)
          ++ (index.index_name ++ (put_u32 (length index.columns) ++ (positions ++ rest)))
    at_name =
        h
        ∙ append_assoc (put_u32 (length index.index_name))
            (index.index_name ++ (put_u32 (length index.columns) ++ positions)) rest
        ∙ ap (λ (t : Bytes). put_u32 (length index.index_name) ++ t)
            (append_assoc index.index_name (put_u32 (length index.columns) ++ positions) rest
              ∙ ap (λ (t : Bytes). index.index_name ++ t)
                  (append_assoc (put_u32 (length index.columns)) positions rest))

    name_behind :
        drop (i + 4) buf
        ≡ index.index_name ++ (put_u32 (length index.columns) ++ (positions ++ rest))
    name_behind =
        drop-behind buf (put_u32 (length index.index_name)) _ i 4 (length-put_u32 _) at_name

    count_behind :
        drop (i + 4 + length index.index_name) buf
        ≡ put_u32 (length index.columns) ++ (positions ++ rest)
    count_behind = drop-behind buf index.index_name _ (i + 4) _ refl name_behind

    positions_behind : drop (i + 4 + length index.index_name + 4) buf ≡ positions ++ rest
    positions_behind =
        drop-behind buf (put_u32 (length index.columns)) _ _ 4 (length-put_u32 _) count_behind

    room : i + 4 + length index.index_name + 4 + length positions ≤ length buf
    room = omega (
      arith,
      length-left buf (put_u32 (length index.index_name)) _ i at_name,
      length-put_u32 (length index.index_name),
      length-append index.index_name (put_u32 (length index.columns) ++ (positions ++ rest)),
      length-append (put_u32 (length index.columns)) (positions ++ rest),
      length-put_u32 (length index.columns),
      length-append positions rest,
    )

  reads_index :
      (index : SecondaryIndex) (positions : Bytes) (indexes : List SecondaryIndex) (bytes : Bytes)
      → ReadsPositions cols index.columns positions
      → length index.columns ≤ length positions
      → ReadsIndexes indexes bytes
      → ReadsIndexes (index ∷ indexes) (index_bytes index positions ++ bytes)
  unfolding read_indexes
  reads_index index positions indexes bytes reads many others buf rest i hi word h = rw (
    read_u32_lem _ buf _ (length index.index_name) i hi (omega (arith, long))
        (at_name index positions buf (bytes ++ rest) i hi word many h'),
    read_string_lem _ buf index.index_name _ (length index.index_name) (i + 4) (omega (arith, long))
        refl (name_behind index positions buf (bytes ++ rest) i hi word many h'),
    read_u32_lem _ buf _ (length index.columns) (i + 4 + length index.index_name)
        (omega (arith, long)) (omega (arith, long))
        (count_behind index positions buf (bytes ++ rest) i hi word many h'),
    reads buf (bytes ++ rest) (i + 4 + length index.index_name + 4) (omega (arith, long))
        (positions_behind index positions buf (bytes ++ rest) i hi word many h'),
    others buf rest (i + 4 + length index.index_name + 4 + length positions) (omega (arith, long))
        word
        (drop-behind buf positions (bytes ++ rest) (i + 4 + length index.index_name + 4) _ refl
          (positions_behind index positions buf (bytes ++ rest) i hi word many h')),
    total,
  )
    where
      h' : drop i buf ≡ index_bytes index positions ++ (bytes ++ rest)
      h' = h ∙ append_assoc (index_bytes index positions) bytes rest

      long : i + 4 + length index.index_name + 4 + length positions ≤ length buf
      long = room index positions buf (bytes ++ rest) i hi word many h'

      total :
          i + 4 + length index.index_name + 4 + length positions + length bytes
          ≡ i + length (index_bytes index positions ++ bytes)
      total = omega (
        arith,
        length-append (index_bytes index positions) bytes,
        length-append (put_u32 (length index.index_name))
            (index.index_name ++ (put_u32 (length index.columns) ++ positions)),
        length-put_u32 (length index.index_name),
        length-append index.index_name (put_u32 (length index.columns) ++ positions),
        length-append (put_u32 (length index.columns)) positions,
        length-put_u32 (length index.columns),
      )

  index_appended :
      (buf : Bytes) (index : SecondaryIndex) (positions : Bytes)
      → (((buf ++ put_u32 (length index.index_name)) ++ index.index_name)
            ++ put_u32 (length index.columns))
          ++ positions
        ≡ buf ++ index_bytes index positions
  index_appended buf index positions =
      append_assoc ((buf ++ put_u32 (length index.index_name)) ++ index.index_name)
        (put_u32 (length index.columns)) positions
      ∙ append_assoc (buf ++ put_u32 (length index.index_name)) index.index_name _
      ∙ append_assoc buf (put_u32 (length index.index_name)) _

  serialise_indexes_inv :
      (buf out : Bytes) (indexes : List SecondaryIndex)
      → serialise_indexes buf cols indexes ≡ ok out
      → (bytes : Bytes) × (out ≡ buf ++ bytes)
        × ReadsIndexes indexes bytes
        × (length indexes ≤ length bytes)
  unfolding serialise_indexes read_indexes
  serialise_indexes_inv buf out [] h = (
    [],
    ground (arith, append-nil buf),
    λ b rest i hi word d. ap (λ (n : ℕ). ok ([], n)) (omega arith),
    omega arith,
  )
  serialise_indexes_inv buf out (index ∷ indexes) h =
      let (buf₁, first, others) = >>=-eq-ok (serialise_positions _ cols index.columns) _ h in
      let (positions, e₁, reads, many) =
        serialise_positions_inv cols small _ buf₁ index.columns first in
      let (bytes, e, rest, more) = serialise_indexes_inv buf₁ out indexes others in
      (
        index_bytes index positions ++ bytes,
        e
            ∙ ap (λ (t : Bytes). t ++ bytes) (e₁ ∙ index_appended buf index positions)
            ∙ append_assoc buf (index_bytes index positions) bytes,
        reads_index index positions indexes bytes reads many rest,
        omega (
          arith,
          more,
          length-append (index_bytes index positions) bytes,
          length-append (put_u32 (length index.index_name))
              (index.index_name ++ (put_u32 (length index.columns) ++ positions)),
          length-put_u32 (length index.index_name),
        ),
      )

  -- A catalog that the encoder makes, of fewer than 2 ^ 32 bytes, is read back over the columns of the
  -- same table, of which there are fewer than 2 ^ 32: all indexes in order, with their names and the
  -- names of their columns.
  pub catalog_round_trip :
      (indexes : List SecondaryIndex) (buf : Bytes)
      → serialise_secondary_index_catalog cols indexes ≡ ok buf
      → IsU32 (length buf)
      → deserialise_secondary_index_catalog buf cols ≡ ok indexes
  unfolding serialise_secondary_index_catalog deserialise_secondary_index_catalog
  catalog_round_trip indexes buf h word =
      let (bytes, e, reads, many) =
        serialise_indexes_inv (put_u32 (length indexes)) buf indexes h in
      let whole : drop 4 buf ≡ bytes ++ [] =
        drop-behind buf (put_u32 (length indexes)) bytes 0 4 (length-put_u32 (length indexes)) e
        ∙ sym (append-nil bytes) in
      let long : length buf ≡ 4 + length bytes = omega (
        arith,
        ap length e,
        length-append (put_u32 (length indexes)) bytes,
        length-put_u32 (length indexes),
      ) in
      rw (
        read_u32_lem _ buf bytes (length indexes) 0 (omega arith) (omega (arith, long, many)) e,
        reads buf [] 4 (omega (arith, long)) word whole,
      )
