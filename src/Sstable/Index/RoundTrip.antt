-- ===== src/Sstable/Index/RoundTrip.antt =====
-- A file's index is read back: writeIndexBlock and writeFooter, then buildIndexFromFile.
use golang_db.Base.{false}
use golang_db.Base.{
  ℕ, zero, suc, ◌+◌, ◌-◌, ◌≤◌, ◌<◌, ◌≡◌, refl, sym, ap, ◌∙◌, List, [], ◌∷◌, ◌++◌, arith, All,
}
use golang_db.Base.{
  lt→ltb, ge→ltb, leb, length, drop, length-append, length-drop, take-append, drop-append,
  append_assoc, append-nil,
}
use golang_db.Base.{ok}
use golang_db.Base.Bytes.{Bytes, IsU32, put_u32, get_u32, length-put_u32, get-put_u32_word}
use golang_db.Base.Cursor.{drop-behind, length-left}
use golang_db.Sstable.Blocks.{IndexEntry}
use golang_db.Sstable.Index.{
  index_entry_bytes, write_index_block, write_footer, slice, read_at, get_index_offset,
  read_index_entry, read_index_entries, build_index_from_file,
}

abbrev pub index_bytes : List IndexEntry → Bytes
index_bytes [] = []
index_bytes (ib ∷ rest) = index_entry_bytes ib ++ index_bytes rest

pub write_index_block_lem :
    (file : Bytes) (index : List IndexEntry)
    → write_index_block file index ≡ file ++ index_bytes index
unfolding write_index_block
write_index_block_lem file [] = sym (append-nil file)
write_index_block_lem file (ib ∷ rest) =
    write_index_block_lem (file ++ index_entry_bytes ib) rest
    ∙ append_assoc file (index_entry_bytes ib) (index_bytes rest)

length-entry : (ib : IndexEntry) → length (index_entry_bytes ib) ≡ length ib.key + 8
unfolding index_entry_bytes
length-entry ib = omega (
  arith,
  length-put_u32 (length ib.key),
  length-put_u32 ib.offset,
  length-append (put_u32 (length ib.key)) (ib.key ++ put_u32 ib.offset),
  length-append ib.key (put_u32 ib.offset),
)

slice_lem :
    (buf xs rest : Bytes) (i j : ℕ)
    → drop i buf ≡ xs ++ rest
    → j ≡ i + length xs
    → i ≤ length buf
    → slice buf i j ≡ ok xs
unfolding slice
slice_lem buf xs rest i j h hj hi =
    let e : j - i ≡ length xs = omega arith in
    rw (
      ge→ltb (length buf) j (omega (arith, length-left buf xs rest i h)),
      h,
      e,
      take-append (length xs) xs rest refl,
    )

ge→leb : (a b : ℕ) → b < a → leb a b ≡ false
ge→leb a b h = ground arith

module _ (buf rest : Bytes) (ib : IndexEntry) (i : ℕ)
    (h : drop i buf ≡ index_entry_bytes ib ++ rest) (hi : i ≤ length buf)
    (small : IsU32 (length buf)) (word : IsU32 ib.offset) where
  at_length : drop i buf ≡ put_u32 (length ib.key) ++ (ib.key ++ (put_u32 ib.offset ++ rest))
  unfolding index_entry_bytes
  at_length =
      h
      ∙ append_assoc (put_u32 (length ib.key)) (ib.key ++ put_u32 ib.offset) rest
      ∙ ap (λ (t : Bytes). put_u32 (length ib.key) ++ t)
          (append_assoc ib.key (put_u32 ib.offset) rest)

  at_key : drop (i + 4) buf ≡ ib.key ++ (put_u32 ib.offset ++ rest)
  at_key =
      drop-behind buf (put_u32 (length ib.key)) _ i 4 (length-put_u32 (length ib.key)) at_length

  at_offset : drop (i + 4 + length ib.key) buf ≡ put_u32 ib.offset ++ rest
  at_offset = drop-behind buf ib.key _ (i + 4) (length ib.key) refl at_key

  room : length buf - i ≡ length ib.key + 8 + length rest
  room =
      length-left buf (index_entry_bytes ib) rest i h
      ∙ ap (λ (n : ℕ). n + length rest) (length-entry ib)

  key_length : get_u32 (put_u32 (length ib.key)) ≡ length ib.key
  key_length = get-put_u32_word (length ib.key) (omega (arith, room))

  read_index_entry_lem : read_index_entry buf i ≡ ok (ib, i + 4 + length ib.key + 4)
  unfolding read_index_entry
  read_index_entry_lem = rw (
    slice_lem buf (put_u32 (length ib.key)) _ i (i + 4) at_length
        (omega (arith, length-put_u32 (length ib.key))) hi,
    ge→leb (length buf) (i + 4) (omega (arith, room)),
    key_length,
    slice_lem buf ib.key _ (i + 4) (i + 4 + length ib.key) at_key refl (omega (arith, room)),
    ge→leb (length buf) (i + 4 + length ib.key) (omega (arith, room)),
    slice_lem buf (put_u32 ib.offset) rest (i + 4 + length ib.key) (i + 4 + length ib.key + 4)
        at_offset (omega (arith, length-put_u32 ib.offset)) (omega (arith, room)),
    get-put_u32_word ib.offset word,
  )

  behind : drop (i + 4 + length ib.key + 4) buf ≡ rest
  behind =
      drop-behind buf (put_u32 ib.offset) rest (i + 4 + length ib.key) 4 (length-put_u32 ib.offset)
        at_offset

read_index_entries_lem :
    (index : List IndexEntry) (fuel i : ℕ) (buf : Bytes)
    → drop i buf ≡ index_bytes index
    → i ≤ length buf
    → IsU32 (length buf)
    → All (λ (ib : IndexEntry). IsU32 ib.offset) index
    → length index ≤ fuel
    → read_index_entries fuel buf i ≡ ok index
unfolding read_index_entries
read_index_entries_lem [] zero i buf h hi small words hf =
    rw (ge→ltb i (length buf) (omega (arith, ap length h, length-drop i buf)))
read_index_entries_lem [] (suc fuel) i buf h hi small words hf =
    rw (ge→ltb i (length buf) (omega (arith, ap length h, length-drop i buf)))
read_index_entries_lem (ib ∷ index) zero i buf h hi small words hf = absurd (omega arith)
read_index_entries_lem (ib ∷ index) (suc fuel) i buf h hi small words hf = rw (
  lt→ltb i (length buf) (omega (arith, room buf (index_bytes index) ib i h hi small words.0)),
  read_index_entry_lem buf (index_bytes index) ib i h hi small words.0,
  read_index_entries_lem index fuel (i + 4 + length ib.key + 4) buf
      (behind buf (index_bytes index) ib i h hi small words.0)
      (omega (arith, room buf (index_bytes index) ib i h hi small words.0)) small words.1
      (omega arith),
)

length-le-index_bytes : (index : List IndexEntry) → length index ≤ length (index_bytes index)
length-le-index_bytes [] = omega arith
length-le-index_bytes (ib ∷ index) = omega (
  arith,
  length-le-index_bytes index,
  length-append (index_entry_bytes ib) (index_bytes index),
  length-entry ib,
)

pub read_at_lem :
    (contents xs ys zs : Bytes) (n offset : ℕ)
    → contents ≡ xs ++ (ys ++ zs)
    → offset ≡ length xs
    → n ≡ length ys
    → read_at contents n offset ≡ ok ys
unfolding read_at
read_at_lem contents xs ys zs n offset h ho hn = rw (
  h,
  ge→ltb (length (xs ++ (ys ++ zs))) (offset + n)
      (omega (arith, length-append xs (ys ++ zs), length-append ys zs)),
  drop-append offset xs (ys ++ zs) ho,
  take-append n ys zs hn,
)

-- The bytes of a whole file: data blocks, index block and footer.
abbrev pub whole_file : Bytes → List IndexEntry → Bytes
whole_file file index = write_footer (write_index_block file index) (length file)

module _ (file : Bytes) (index : List IndexEntry) (small : IsU32 (length (whole_file file index)))
    (words : All (λ (ib : IndexEntry). IsU32 ib.offset) index) where
  pub footer : Bytes
  footer = put_u32 (length file)

  pub shape : whole_file file index ≡ file ++ (index_bytes index ++ footer)
  unfolding write_footer footer
  shape =
      ap (λ (t : Bytes). t ++ put_u32 (length file)) (write_index_block_lem file index)
      ∙ append_assoc file (index_bytes index) (put_u32 (length file))

  footer_last : whole_file file index ≡ (file ++ index_bytes index) ++ (put_u32 (length file) ++ [])
  unfolding footer
  footer_last =
      shape
      ∙ sym (append_assoc file (index_bytes index) (put_u32 (length file)))
      ∙ ap (λ (t : Bytes). (file ++ index_bytes index) ++ t)
          (sym (append-nil (put_u32 (length file))))

  pub size : length (whole_file file index) ≡ length file + length (index_bytes index) + 4
  unfolding footer
  size = omega (
    arith,
    ap length shape,
    length-append file (index_bytes index ++ put_u32 (length file)),
    length-append (index_bytes index) (put_u32 (length file)),
    length-put_u32 (length file),
  )

  pub get_index_offset_lem : get_index_offset (whole_file file index) ≡ ok (length file)
  unfolding get_index_offset footer
  get_index_offset_lem = rw (
    ge→ltb (length (whole_file file index)) 4 (omega (arith, size)),
    read_at_lem (whole_file file index) (file ++ index_bytes index) (put_u32 (length file)) [] 4
        (length (whole_file file index) - 4) footer_last
        (omega (arith, size, length-append file (index_bytes index)))
        (omega (arith, length-put_u32 (length file))),
    get-put_u32_word (length file) (omega (arith, size)),
  )

  -- From a file of the writer of fewer than 2 ^ 32 bytes, whose index has offsets of 32 bits, the index
  -- and the offset at which it starts are read back.
  pub build_index_round_trip :
      build_index_from_file (whole_file file index) ≡ ok (length file, index)
  unfolding build_index_from_file
  build_index_round_trip = rw (
    get_index_offset_lem,
    ge→ltb (length (whole_file file index) - 4) (length file) (omega (arith, size)),
    read_at_lem (whole_file file index) file (index_bytes index) footer
        (length (whole_file file index) - 4 - length file) (length file) shape refl
        (omega (arith, size)),
    read_index_entries_lem index (length (index_bytes index)) 0 (index_bytes index) refl
        (omega arith) (omega (arith, size)) words (length-le-index_bytes index),
  )
