-- ===== src/Sstable/Table/Reopen.antt =====
-- What buildIndexFromFile of sstable/sstable.go reads of a file that Write has written, and what a
-- compaction relies on in it.
use golang_db.Base.{
  ℕ, ◌+◌, ◌≤◌, ◌≡◌, ap, ◌∙◌, false, List, [], ◌∷◌, arith, All, length, length-append, ok,
}
use golang_db.Base.Bytes.{Bytes, IsU32, put_u32}
use golang_db.Memtable.{Entry, less}
use golang_db.Btree.{SortedBy}
use golang_db.Sstable.Blocks.{IndexEntry, write_data_blocks}
use golang_db.Sstable.Blocks.Decoded.{encode_all}
use golang_db.Sstable.Blocks.Written.{index_of, concat, encode_all-append}
use golang_db.Sstable.Blocks.Layout.{IsKeyed, IsLaidOut, write_data_blocks-IsLaidOut}
use golang_db.Sstable.Index.{write_footer, write_index_block, build_index_from_file}
use golang_db.Sstable.Index.RoundTrip.{
  whole_file, build_index_round_trip, write_index_block_lem, index_bytes,
}
use golang_db.Sstable.Compaction.Merge.{IsWritten}
use golang_db.Sstable.Table.{SsTable, write_to_file}
use golang_db.Sstable.Table.Write.{data_length}

-- The offsets of the index are inside the data.
index_of-words :
    (start bound : ℕ) (blocks : List (List Entry))
    → start + length (encode_all (concat blocks)) ≤ bound
    → IsU32 bound
    → All (λ (ib : IndexEntry). IsU32 ib.offset) (index_of start blocks)
index_of-words start bound [] h w = tt
index_of-words start bound (b ∷ blocks) h w = (
  omega arith,
  index_of-words (start + length (encode_all b)) bound blocks
      (omega (
        arith,
        h,
        ap length (encode_all-append b (concat blocks)),
        length-append (encode_all b) (encode_all (concat blocks)),
      ))
      w,
)

module _ (st : SsTable) (name : Bytes) (entries : List Entry) (indexed : st.skip_index ≡ false)
    (laid : IsLaidOut entries (write_data_blocks st.block_length entries)) where
  contents-whole_file :
      (write_to_file st (record { name = name; contents = [] }) entries).0.contents
      ≡ whole_file (encode_all entries) (index_of 0 laid.blocks)
  unfolding write_to_file
  contents-whole_file =
      rw (indexed, laid.file, laid.index, data_length st name entries indexed laid)

length-whole_file :
    (file : Bytes) (index : List IndexEntry) → length file ≤ length (whole_file file index)
unfolding write_footer
length-whole_file file index = omega (
  arith,
  length-append (write_index_block file index) (put_u32 (length file)),
  ap length (write_index_block_lem file index),
  length-append file (index_bytes index),
)

-- The file that Write leaves of entries whose keys are not empty, with an index and of fewer than 2 ^ 32
-- bytes: after a restart the same offset and the same
-- index are read from it as Write has kept in memory.
pub build_index-write_to_file :
    (st : SsTable) (name : Bytes) (entries : List Entry)
    → st.skip_index ≡ false
    → All IsKeyed entries
    → IsU32 (length (write_to_file st (record { name = name; contents = [] }) entries).0.contents)
    → build_index_from_file
        (write_to_file st (record { name = name; contents = [] }) entries).0.contents
      ≡ ok (
        (write_to_file st (record { name = name; contents = [] }) entries).1,
        (write_to_file st (record { name = name; contents = [] }) entries).2,
      )
build_index-write_to_file st name entries indexed keyed small =
    let laid = write_data_blocks-IsLaidOut st.block_length entries keyed in
    let whole = contents-whole_file st name entries indexed laid in
    let small' : IsU32 (length (whole_file (encode_all entries) (index_of 0 laid.blocks))) =
      rw whole at small in
    let words =
      index_of-words 0 (length (encode_all entries)) laid.blocks
        (omega (arith, ap (λ (es : List Entry). length (encode_all es)) laid.cut))
        (omega (arith, small', length-whole_file (encode_all entries) (index_of 0 laid.blocks))) in
    rw whole (
      build_index_round_trip (encode_all entries) (index_of 0 laid.blocks) small' words
      ∙ (unfold write_to_file in rw (data_length st name entries indexed laid, laid.index)))

-- Such a file of sorted entries is one that a compaction reads in full.
pub write_to_file-IsWritten :
    (st : SsTable) (name : Bytes) (entries : List Entry)
    → st.skip_index ≡ false
    → All IsKeyed entries
    → SortedBy less entries
    → IsU32 (length (write_to_file st (record { name = name; contents = [] }) entries).0.contents)
    → IsWritten (write_to_file st (record { name = name; contents = [] }) entries).0 entries
write_to_file-IsWritten st name entries indexed keyed sorted small =
    let laid = write_data_blocks-IsLaidOut st.block_length entries keyed in
    let whole = contents-whole_file st name entries indexed laid in
    record {
      index = index_of 0 laid.blocks;
      contents = whole;
      small = small;
      words =
          index_of-words 0 (length (encode_all entries)) laid.blocks
            (omega (arith, ap (λ (es : List Entry). length (encode_all es)) laid.cut))
            (omega (
              arith,
              rw whole at small,
              length-whole_file (encode_all entries) (index_of 0 laid.blocks),
            ));
      sorted = sorted;
    }
