-- ===== src/Sstable/Index.antt =====
-- The index block and the footer of a file: writeIndexBlock, writeFooter, getIndexOffset and
-- buildIndexFromFile of sstable/sstable.go.
pub mod RoundTrip
use golang_db.Base.{
  ℕ, zero, suc, ◌+◌, ◌-◌, List, [], ◌∷◌, ◌++◌, ltb, leb, if◌then◌else◌, length, take, drop, Result,
  ok, err, index_corrupted, short_read, panic, out_of_fuel, ◌>>=◌,
}
use golang_db.Base.Bytes.{Bytes, put_u32, get_u32}
use golang_db.Sstable.Blocks.{IndexEntry}

-- [length_of_key][key][offset]
unfoldable pub index_entry_bytes : IndexEntry → Bytes
index_entry_bytes ib = put_u32 (length ib.key) ++ (ib.key ++ put_u32 ib.offset)

unfoldable pub write_index_block : Bytes → List IndexEntry → Bytes
unfolding index_entry_bytes
write_index_block file [] = file
write_index_block file (ib ∷ rest) = write_index_block (file ++ index_entry_bytes ib) rest

unfoldable pub write_footer : Bytes → ℕ → Bytes
write_footer file index_block_start_offset = file ++ put_u32 index_block_start_offset

-- buf[i : j], a run-time fault where it is out of range
unfoldable pub slice : Bytes → ℕ → ℕ → Result Bytes
slice buf i j = if ltb (length buf) j then err panic else ok (take (j - i) (drop i buf))

-- file.ReadAt of `n` bytes at an offset: an error unless all of them are there.
unfoldable pub read_at : Bytes → ℕ → ℕ → Result Bytes
read_at contents n offset =
    if ltb (length contents) (offset + n)
    then err short_read
    else ok (take n (drop offset contents))

-- A file of fewer than four bytes is read at a negative offset, which is an error too.
unfoldable pub get_index_offset : Bytes → Result ℕ
get_index_offset contents =
    if ltb (length contents) 4
    then err short_read
    else do buf ← read_at contents 4 (length contents - 4); ok (get_u32 buf)

-- if i >= int(indexBlockLength)
abbrev in_range : Bytes → ℕ → Result (Unit {0})
in_range buf i = if leb (length buf) i then err index_corrupted else ok tt

-- One round: a key, an offset, and the place behind them.
unfoldable pub read_index_entry : Bytes → ℕ → Result (IndexEntry × ℕ)
read_index_entry buf i = do
  key_length_buf ← slice buf i (i + 4)
  _ ← in_range buf (i + 4)
  key ← slice buf (i + 4) (i + 4 + get_u32 key_length_buf)
  _ ← in_range buf (i + 4 + get_u32 key_length_buf)
  offset_buf ← slice buf (i + 4 + get_u32 key_length_buf) (i + 4 + get_u32 key_length_buf + 4)
  ok (record { key = key; offset = get_u32 offset_buf }, i + 4 + get_u32 key_length_buf + 4)

-- Each round moves on by eight bytes at least: as many rounds as there are bytes are enough.
unfoldable pub read_index_entries : ℕ → Bytes → ℕ → Result (List IndexEntry)
read_index_entries zero buf i = if ltb i (length buf) then err out_of_fuel else ok []
read_index_entries (suc fuel) buf i =
    let next = (do
      (ib, i') ← read_index_entry buf i
      rest ← read_index_entries fuel buf i'
      ok (ib ∷ rest)) in
    if ltb i (length buf) then next else ok []

-- An index offset behind the footer is a buffer of a length below zero: a run-time fault.
read_index : Bytes → ℕ → Result (ℕ × List IndexEntry)
read_index contents index_offset =
    let entries = (do
      buf ← read_at contents (length contents - 4 - index_offset) index_offset
      index ← read_index_entries (length buf) buf 0
      ok (index_offset, index)) in
    if ltb (length contents - 4) index_offset then err panic else entries

unfoldable pub build_index_from_file : Bytes → Result (ℕ × List IndexEntry)
unfolding read_index
build_index_from_file contents = do
  index_offset ← get_index_offset contents
  read_index contents index_offset
