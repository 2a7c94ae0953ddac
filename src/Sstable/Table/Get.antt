-- ===== src/Sstable/Table/Get.antt =====
-- Get of sstable/sstable.go: what one file answers, and which file answers first.
use golang_db.Sstable.Table.Located.{next_block, concat-empty}
use golang_db.Base.Bytes.{str_eq_iff}
use golang_db.Base.{get_elem?-lt}
use golang_db.Base.{
  ℕ, suc, ◌≡◌, ◌≢◌, refl, sym, ap, ◌∙◌, inl, inr, Option, none, some, true, Bool-cases, List, [],
  ◌∷◌, ◌++◌, arith, All,
}
use golang_db.Base.{if◌then◌else◌, length, get_elem?, Result, ok, err, datablock_corrupted}
use golang_db.Base.Bytes.{Bytes, str_lt, str_le, cmp-swap}
use golang_db.Memtable.{Entry, less}
use golang_db.Btree.{SortedBy}
use golang_db.Sstable.Blocks.{IndexEntry}
use golang_db.Sstable.Blocks.Decoded.{encode_all, value_in}
use golang_db.Sstable.Blocks.Written.{first_of, index_of, concat}
use golang_db.Sstable.Search.{get_lower_bound, IsLowerBound, get_lower_bound-IsLowerBound}
use golang_db.Sstable.Table.{SsTable, at, get_from_block, get_from_file, get_files}
use golang_db.Sstable.Table.Located.{locate}
use golang_db.Sstable.Table.Lookup.{value_in-after, block_result}
use golang_db.Sstable.Table.Stored.{
  IsStored, at-some, value_in_block, end_offset_lem, get_value_lem, index_of-IsAscending,
}
use mathlib.Core.Path.{subst}

-- What a file of sorted entries answers: nothing where it begins above the key, the value of the key,
-- or an error where it begins at or below the key and has not the key.
abbrev pub file_result : Bytes → List Entry → Result Bytes
file_result key [] = ok []
file_result key (e ∷ rest) =
    if str_lt key e.key then ok [] else block_result (value_in key (e ∷ rest))

module _ (st : SsTable) (n : ℕ) (entries : List Entry) (s : IsStored st n entries)
    (key : Bytes) where
  sorted_blocks : SortedBy less (concat s.blocks)
  sorted_blocks = subst (λ (es : List Entry). SortedBy less es) (sym s.cut) s.sorted

  bounded : IsLowerBound key (index_of 0 s.blocks) (get_lower_bound key (index_of 0 s.blocks))
  bounded =
      get_lower_bound-IsLowerBound key (index_of 0 s.blocks)
        (index_of-IsAscending 0 s.blocks s.filled sorted_blocks)

  offset' : at st.index_offsets n ≡ ok (length (encode_all (concat s.blocks)))
  offset' = s.at_offset ∙ ap (λ (es : List Entry). ok (length (encode_all es))) (sym s.cut)

  get_from_block_lem :
      (r : Option ℕ)
      → IsLowerBound key (index_of 0 s.blocks) r
      → get_from_block st n key s.file (index_of 0 s.blocks) r
        ≡ elim r [ none ↦ ok [] | some b ↦ block_result (value_in key entries) ]
  get_from_block_lem none h = unfold get_from_block in refl
  get_from_block_lem (some b) ((ie, here), below, above) =
      let l = locate 0 s.blocks b ie s.filled here in
      unfold get_from_block in
      rw
        (
          offset',
          end_offset_lem key s.blocks b ie l sorted_blocks,
          at-some (index_of 0 s.blocks) b ie here,
          get_value_lem key s.blocks b ie l sorted_blocks s.file s.next_byte s.tail
              (s.contents
                ∙ ap (λ (es : List Entry). encode_all es ++ s.next_byte ∷ s.tail) (sym s.cut))
              s.small,
        )
        (ap block_result (
          sym (
            value_in_block key s.blocks b ie l sorted_blocks (below b ie (omega arith) here)
              (λ next h. above (suc b) next (omega arith) h))
          ∙ ap (value_in key) s.cut))

  first_index :
      (e : Entry) (rest : List Entry)
      → concat s.blocks ≡ e ∷ rest
      → (ie : IndexEntry) × (get_elem? (index_of 0 s.blocks) 0 ≡ some ie) × (ie.key ≡ e.key)
  first_index e rest h = elim (next_block 0 s.blocks s.filled) [
    | inl none_left ↦ cc (none_left, h)
    | inr (ie, here, k, o) ↦ (ie, here, k ∙ ap first_of h)
  ]

  answer :
      (r : Option ℕ) (es : List Entry)
      → IsLowerBound key (index_of 0 s.blocks) r
      → concat s.blocks ≡ es
      → elim r [ none ↦ ok [] | some b ↦ block_result (value_in key es) ] ≡ file_result key es
  answer none [] h e = refl
  answer none (x ∷ es) h e =
      let (ie, here, k) = first_index x es e in
      let above : str_lt key ie.key ≡ true = h 0 ie (omega arith) here in rw (rw k at above)
  answer (some b) [] ((ie, here), below, above) e = absurd (
      omega
        (arith, concat-empty s.blocks 0 s.filled e, get_elem?-lt (index_of 0 s.blocks) b ie here))
  answer (some b) (x ∷ es) (ie, below, above) e =
      let (ie, here, k) = first_index x es e in
      let le : str_le x.key key ≡ true = rw k at (below 0 ie (omega arith) here) in
      ground (arith, le, cmp-swap x.key key)

  -- The search in one file.
  get_from_file_lem : get_from_file st n key ≡ file_result key entries
  unfolding get_from_file
  get_from_file_lem =
      rw (s.at_file, s.at_index)
        (get_from_block_lem _ bounded
          ∙ ap
              (λ (es : List Entry). elim (get_lower_bound key (index_of 0 s.blocks)) [
                | none ↦ ok []
                | some b ↦ block_result (value_in key es)
              ])
              (sym s.cut)
          ∙ answer _ (concat s.blocks) bounded refl
          ∙ ap (file_result key) s.cut)

-- A key that is in a sorted list is not below its first.
file_result-some :
    (key : Bytes) (entries : List Entry) (v : Bytes)
    → SortedBy less entries
    → value_in key entries ≡ some v
    → file_result key entries ≡ ok v
file_result-some key [] v s h = cc
file_result-some key (e ∷ es) v s h = elim (Bool-cases (str_lt key e.key)) [
  | inl lt ↦ cc (value_in-after key (e ∷ es) s lt, h)
  | inr ge ↦ rw (ge, h)
]

module _ (st : SsTable) (n : ℕ) (entries : List Entry) (s : IsStored st n entries)
    (key : Bytes) where
  -- Of the files 0 to `n`, of which the last holds the sorted entries: a key whose entry there has a
  -- value that is not empty is answered by that value, whatever the older files hold.
  pub get_files-newest :
      (v : Bytes) → value_in key entries ≡ some v → v ≢ [] → get_files (suc n) st key ≡ ok v
  unfolding get_files
  get_files-newest v h filled =
      rw (get_from_file_lem st n entries s key, file_result-some key entries v s.sorted h)
        (ground (arith, str_eq_iff v []))

  -- Where all entries of the newest file have keys above the key, the older files answer.
  pub get_files-older :
      All (λ (e : Entry). str_lt key e.key ≡ true) entries
      → get_files (suc n) st key ≡ get_files n st key
  unfolding get_files
  get_files-older h =
      rw (get_from_file_lem st n entries s key, nothing entries h)
        (ground (arith, str_eq_iff [] []))
    where
      nothing :
          (es : List Entry)
          → All (λ (e : Entry). str_lt key e.key ≡ true) es
          → file_result key es ≡ ok []
      nothing [] h = refl
      nothing (e ∷ es) h = rw h.0

  -- The newest file holds sorted entries from its first byte on, with a byte or more behind them, has fewer
  -- than 2 ^ 32 bytes, and has its own index block and index offset in the lists of the table, which after
  -- a compaction need not be so. Then a key that it has not, where it has entries and not all above the
  -- key, is an error, whatever the older files hold: the loop over a block reads one byte too many and
  -- takes that byte for the head of an entry.
  pub get_files-hidden :
      value_in key entries ≡ none
      → str_le (first_of entries) key ≡ true
      → entries ≢ []
      → get_files (suc n) st key ≡ err datablock_corrupted
  unfolding get_files
  get_files-hidden missing le filled =
      rw (get_from_file_lem st n entries s key, refused entries missing le filled)
    where
      refused :
          (es : List Entry)
          → value_in key es ≡ none
          → str_le (first_of es) key ≡ true
          → es ≢ []
          → file_result key es ≡ err datablock_corrupted
      refused [] m l f = absurd (f refl)
      refused (e ∷ es) m l f = ground (arith, cmp-swap e.key key)
