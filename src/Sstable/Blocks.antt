-- ===== src/Sstable/Blocks.antt =====
-- The data blocks of a file: writeDataBlocks and extractValueFromSsTable of sstable/sstable.go, and
-- the loops over the entries of a buffer. A write to a file that has been opened is taken to succeed.
pub mod Written
pub mod Layout
pub mod Decoded
use golang_db.Base.{
  ℕ, zero, suc, ◌+◌, ◌-◌, List, [], ◌∷◌, ◌++◌, ltb, if◌then◌else◌, length, take, drop, Result, ok,
  err, datablock_corrupted, out_of_fuel, ◌>>=◌,
}
use golang_db.Base.Bytes.{Bytes, str_eq, put_u32, get_u32}
use golang_db.Base.Dict
use golang_db.Base.Dict.{Dict}
use golang_db.Memtable.{Entry}

-- indexBlockEntry: the first key of a data block and where the block starts
pub record IndexEntry : Type 0 where
  pub key : Bytes
  pub offset : ℕ

-- [length_of_key][key][length_of_value][value]
unfoldable pub encode : Entry → Bytes
encode e = ((put_u32 (length e.key) ++ e.key) ++ put_u32 (length e.value)) ++ e.value

-- The variables of writeDataBlocks; `file` is what has been written.
pub record Blocks : Type 0 where
  pub block_length : ℕ
  pub block_start_offset : ℕ
  pub block_first_key : Bytes
  pub block_buf : Bytes
  pub offset : ℕ
  pub index_block : List IndexEntry
  pub file : Bytes

abbrev pub no_blocks : Blocks
no_blocks = record {
  block_length = 0;
  block_start_offset = 0;
  block_first_key = [];
  block_buf = [];
  offset = 0;
  index_block = [];
  file = [];
}

-- `if blockFirstKey == "" { blockFirstKey = key }`
first_key : Bytes → Bytes → Bytes
first_key block_first_key key = if str_eq block_first_key [] then key else block_first_key

-- The entry joins the block.
pub add_entry : Blocks → Entry → Blocks
unfolding first_key
add_entry b e =
    let len = length (encode e) in
    record b {
      block_first_key = first_key b.block_first_key e.key;
      offset = b.offset + len;
      block_length = b.block_length + len;
      block_buf = b.block_buf ++ encode e;
    }

-- The block is noted in the index and written to the file.
pub close_block : Blocks → Blocks
close_block b = record b {
  index_block =
      b.index_block ++ record { key = b.block_first_key; offset = b.block_start_offset } ∷ [];
  file = b.file ++ b.block_buf;
}

pub start_block : Blocks → Blocks
start_block b = record b {
  block_start_offset = b.offset;
  block_first_key = [];
  block_length = 0;
  block_buf = [];
}

-- The callback that the iterator calls for each entry.
unfoldable pub write_entry : ℕ → Blocks → Entry → Blocks
unfolding add_entry close_block start_block
write_entry limit b e =
    let b' = add_entry b e in if ltb limit b'.block_length then start_block (close_block b') else b'

write_entries : ℕ → Blocks → List Entry → Blocks
write_entries limit b [] = b
write_entries limit b (e ∷ rest) = write_entries limit (write_entry limit b e) rest

-- The last block, where one is open.
last_block : Blocks → Blocks
unfolding close_block
last_block b = if str_eq b.block_first_key [] then b else close_block b

unfoldable pub write_data_blocks : ℕ → List Entry → Blocks
unfolding write_entries write_entry last_block
write_data_blocks limit entries = last_block (write_entries limit no_blocks entries)

unfoldable pub extract_value : Bytes → ℕ → Result Bytes
extract_value buf i =
    let len = get_u32 (take 4 (drop i buf)) in
    if ltb (length buf) (i + 4)
    then err datablock_corrupted
    else if ltb (length buf) (i + 4 + len)
    then err datablock_corrupted
    else ok (take len (drop (i + 4) buf))

-- The two reads at the head of each loop: an entry, and the offset behind it.
unfoldable pub extract_entry : Bytes → ℕ → Result (Entry × ℕ)
extract_entry buf i = do
  key ← extract_value buf i
  value ← extract_value buf (i + (4 + length key))
  ok (record { key = key; value = value }, i + (4 + length key) + (4 + length value))

-- The loop of getValueFromSsTableDataBlock. Each round moves the offset by eight at least, so that
-- as many rounds as the buffer has bytes are enough.
unfoldable pub find_in_block : ℕ → Bytes → ℕ → Bytes → Result Bytes
find_in_block zero buf i key = if ltb i (length buf) then err out_of_fuel else ok []
find_in_block (suc fuel) buf i key =
    let next = (do
      (e, i') ← extract_entry buf i
      (let rest = find_in_block fuel buf i' key in
          if str_eq e.key key then ok e.value else rest)) in
    if ltb i (length buf) then next else ok []

-- The loop of buildCompactedMap over the data blocks of one file.
unfoldable pub put_entries : ℕ → Bytes → ℕ → Dict Bytes → Result (Dict Bytes)
put_entries zero buf i map = if ltb i (length buf) then err out_of_fuel else ok map
put_entries (suc fuel) buf i map =
    let next = (do
      (e, i') ← extract_entry buf i
      put_entries fuel buf i' (Dict.put e.key e.value map)) in
    if ltb i (length buf) then next else ok map
