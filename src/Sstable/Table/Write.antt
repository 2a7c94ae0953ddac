-- ===== src/Sstable/Table/Write.antt =====
-- Write of sstable/sstable.go makes a file that Get can search and a compaction can read.
use golang_db.Base.{
  ℕ, zero, suc, ◌/◌, ◌%◌, ◌^◌, ◌≡◌, ◌≢◌, refl, ap, ◌∙◌, some, false, List, [], ◌∷◌, ◌++◌, arith,
  All, length, get_elem?, length-append, append_assoc, ok,
}
use golang_db.Base.Bytes.{Bytes, IsU32, put_u32}
use golang_db.Memtable.{Entry, less}
use golang_db.Btree.{SortedBy}
use golang_db.Sstable.Blocks.{write_data_blocks}
use golang_db.Sstable.Blocks.Decoded.{encode_all, value_in}
use golang_db.Sstable.Blocks.Written.{index_of}
use golang_db.Sstable.Blocks.Layout.{IsKeyed, IsLaidOut, write_data_blocks-IsLaidOut}
use golang_db.Sstable.Index.{write_footer}
use golang_db.Sstable.Index.RoundTrip.{index_bytes, write_index_block_lem}
use golang_db.Sstable.Table.{SsFile, SsTable, at, write_to_file, write, get_files, get}
use golang_db.Sstable.Table.Stored.{IsStored, at-some}
use golang_db.Sstable.Table.Get.{get_files-newest}

-- Each file has its index block and its offset, and the index is in use.
pub record IsAligned (st : SsTable) : Type 0 where
  pub indexed : st.skip_index ≡ false
  pub blocks : length st.index_blocks ≡ length st.first_level_files
  pub offsets : length st.index_offsets ≡ length st.first_level_files

get_elem?-last {ℓ} :
    {A : Type ℓ} (xs : List A) (x : A) (n : ℕ) → length xs ≡ n → get_elem? (xs ++ x ∷ []) n ≡ some x
get_elem?-last [] x zero h = refl
get_elem?-last [] x (suc n) h = absurd (omega arith)
get_elem?-last (y ∷ xs) x zero h = absurd (omega arith)
get_elem?-last (y ∷ xs) x (suc n) h = get_elem?-last xs x n (omega arith)

at-last {ℓ} :
    {A : Type ℓ} (xs : List A) (x : A) (n : ℕ) → length xs ≡ n → at (xs ++ x ∷ []) n ≡ ok x
at-last xs x n h = at-some (xs ++ x ∷ []) n x (get_elem?-last xs x n h)

-- The bytes of the index and the footer: at least the four of the footer.
behind : (index : Bytes) (n : ℕ) → (y : ℕ) × (tail : Bytes) × (index ++ put_u32 n ≡ y ∷ tail)
unfolding put_u32
behind [] n = (n / 2 ^ 24 % 256, n / 2 ^ 16 % 256 ∷ n / 2 ^ 8 % 256 ∷ n % 256 ∷ [], refl)
behind (x ∷ xs) n = (x, xs ++ put_u32 n, refl)

-- The bytes of a file of entries: the blocks, their index, and the offset of the index.
abbrev pub file_bytes : List Entry → List (List Entry) → Bytes
file_bytes entries blocks =
    encode_all entries ++ (index_bytes (index_of 0 blocks) ++ put_u32 (length (encode_all entries)))

module _ (st : SsTable) (name : Bytes) (entries : List Entry) (indexed : st.skip_index ≡ false)
    (laid : IsLaidOut entries (write_data_blocks st.block_length entries)) where
  pub data_length : (write_data_blocks st.block_length entries).offset ≡ length (encode_all entries)
  data_length = laid.offset ∙ ap length laid.file

  pub written_contents :
      (write_to_file st (record { name = name; contents = [] }) entries).0.contents
      ≡ file_bytes entries laid.blocks
  unfolding write_to_file write_footer
  written_contents =
      rw
        (
          indexed,
          laid.file,
          laid.index,
          data_length,
          write_index_block_lem (encode_all entries) (index_of 0 laid.blocks),
        )
        (append_assoc (encode_all entries) (index_bytes (index_of 0 laid.blocks)) _)

pub write-IsStored :
    (st : SsTable) (name : Bytes) (entries : List Entry)
    → IsAligned st
    → All IsKeyed entries
    → SortedBy less entries
    → IsU32 (length (write_to_file st (record { name = name; contents = [] }) entries).0.contents)
    → IsStored
        (write st (record { name = name; contents = [] }) entries)
        (length st.first_level_files)
        entries
unfolding write
write-IsStored st name entries al keyed sorted small =
    let laid = write_data_blocks-IsLaidOut st.block_length entries keyed in
    let contents = written_contents st name entries al.indexed laid in
    let (y, tail, e) =
      behind (index_bytes (index_of 0 laid.blocks)) (length (encode_all entries)) in
    record {
      file = (write_to_file st (record { name = name; contents = [] }) entries).0;
      blocks = laid.blocks;
      next_byte = y;
      tail = tail;
      at_file = at-last st.first_level_files _ (length st.first_level_files) refl;
      at_index =
          unfold write_to_file in
          rw (al.indexed, laid.index)
            (at-last st.index_blocks (index_of 0 laid.blocks) (length st.first_level_files)
              al.blocks);
      at_offset =
          unfold write_to_file in
          rw (data_length st name entries al.indexed laid) (
            at-last st.index_offsets (length (encode_all entries)) (length st.first_level_files)
              al.offsets);
      contents = contents ∙ ap (λ (t : Bytes). encode_all entries ++ t) e;
      cut = laid.cut;
      filled = laid.filled;
      sorted = sorted;
      small = small;
    }

-- Write of sorted entries with keys that are not empty, to a file that was empty or new and then has fewer
-- than 2 ^ 32 bytes, into a table that uses its index and whose lists have the same length: Get then
-- returns the value of each of them, where it is not empty, whatever the older files hold.
pub get-write :
    (st : SsTable) (name : Bytes) (entries : List Entry) (key value : Bytes)
    → IsAligned st
    → All IsKeyed entries
    → SortedBy less entries
    → IsU32 (length (write_to_file st (record { name = name; contents = [] }) entries).0.contents)
    → value_in key entries ≡ some value
    → value ≢ []
    → get (write st (record { name = name; contents = [] }) entries) key ≡ ok value
unfolding get
get-write st name entries key value al keyed sorted small here filled =
    ap (λ (n : ℕ). get_files n (write st (record { name = name; contents = [] }) entries) key)
      one_more
    ∙ get_files-newest (write st (record { name = name; contents = [] }) entries)
        (length st.first_level_files) entries (write-IsStored st name entries al keyed sorted small)
        key value here filled
  where
    one_more :
        length (write st (record { name = name; contents = [] }) entries).first_level_files
        ≡ suc (length st.first_level_files)
    one_more = unfold write in omega (arith, length-append st.first_level_files (_ ∷ []))

-- Write keeps the lists of a table in step.
pub write-IsAligned :
    (st : SsTable) (file : SsFile) (entries : List Entry)
    → IsAligned st
    → IsAligned (write st file entries)
unfolding write
write-IsAligned st file entries al = record {
  indexed = al.indexed;
  blocks = rw al.indexed (
      omega (
        arith,
        al.blocks,
        length-append st.index_blocks (_ ∷ []),
        length-append st.first_level_files (_ ∷ []),
      ));
  offsets = omega (
    arith,
    al.offsets,
    length-append st.index_offsets (_ ∷ []),
    length-append st.first_level_files (_ ∷ []),
  );
}
