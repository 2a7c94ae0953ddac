-- ===== src/Sstable/Scan/Newest.antt =====
-- PrefixScan of sstable/sstable.go over all files of a table: the newest value of each key.
use golang_db.Base.{
  ℕ, zero, suc, ◌<◌, ◌≡◌, refl, sym, ap, ◌∙◌, Option, none, some, true, false, Bool-cases, inl, inr,
  List, [], ◌∷◌, arith, if◌then◌else◌, length, get_elem?, ok,
}
use golang_db.Base.Bytes.{Bytes, str_lt, cmp-swap, has_prefix}
use golang_db.Base.Dict
use golang_db.Base.Dict.{Dict}
use golang_db.Btree.{SortedBy}
use golang_db.Memtable.{Entry, less}
use golang_db.Sstable.Blocks.{IndexEntry}
use golang_db.Sstable.Blocks.Decoded.{value_in}
use golang_db.Sstable.Blocks.Written.{first_of, index_of, concat}
use golang_db.Sstable.Search.{get_lower_bound, IsLowerBound, get_lower_bound-IsLowerBound}
use golang_db.Sstable.Table.{SsTable}
use golang_db.Sstable.Table.Located.{locate, next_block}
use golang_db.Sstable.Table.Lookup.{value_in-before, length-le-encode_all}
use golang_db.Sstable.Table.Stored.{IsStored, index_of-IsAscending}
use golang_db.Sstable.Scan.{first_block, scan_from, scan_file, scan_files, prefix_scan}
use golang_db.Sstable.Scan.Entries.{or_else, or_else-none, value_in-no_prefix}
use golang_db.Sstable.Scan.Files.{
  le-has_prefix, lacking, none_in, IsScanned, nothing, sorted_blocks, from_block,
}
use mathlib.Core.Path.{subst}

key_of : Option IndexEntry → Bytes
key_of none = []
key_of (some ie) = ie.key

same_key : (o : Option IndexEntry) (a b : IndexEntry) → o ≡ some a → o ≡ some b → a.key ≡ b.key
unfolding key_of
same_key o a b h g = ap key_of (sym h ∙ g)

not_below : (p k : Bytes) → str_lt p k ≡ true → str_lt k p ≡ false
not_below p k h = ground (arith, cmp-swap p k)

first_offset :
    (start : ℕ) (blocks : List (List Entry)) (ie : IndexEntry)
    → get_elem? (index_of start blocks) 0 ≡ some ie
    → ie.offset ≡ start
first_offset start [] ie h = cc
first_offset start (b ∷ blocks) ie h = ground arith

module _ (st : SsTable) (n : ℕ) (entries : List Entry) (s : IsStored st n entries) (p : Bytes)
    (m : Dict Bytes) where
  no_value : (j : Bytes) → value_in j (concat s.blocks) ≡ none → value_in j entries ≡ none
  no_value j h = ap (value_in j) (sym s.cut) ∙ h

  from_lower_bound :
      (b : ℕ)
      → IsLowerBound p (index_of 0 s.blocks) (some b)
      → IsScanned p m entries (scan_from st n p s.file (index_of 0 s.blocks) m (some b))
  from_lower_bound b ((ie, here), below, above) =
      let l = locate 0 s.blocks b ie s.filled here in
      from_block st n entries s p m b ie l here (λ j h.
        value_in-before j l.before l.block l.after
          (subst (λ es. SortedBy less es) l.whole (sorted_blocks st n entries s p m)) l.filled
          (le-has_prefix (first_of l.block) p j (rw l.key at (below b ie (omega arith) here)) h))

  from_start :
      (first : IndexEntry)
      → get_elem? (index_of 0 s.blocks) 0 ≡ some first
      → IsScanned p m entries (scan_from st n p s.file (index_of 0 s.blocks) m (some 0))
  from_start first here =
      let l = locate 0 s.blocks 0 first s.filled here in
      from_block st n entries s p m 0 first l here (λ j h. none_in j l.before (
        omega (arith, l.offset, first_offset 0 s.blocks first here, length-le-encode_all l.before)))

  above_all :
      (first : IndexEntry)
      → get_elem? (index_of 0 s.blocks) 0 ≡ some first
      → str_lt p first.key ≡ true
      → has_prefix first.key p ≡ false
      → IsScanned p m entries (ok m)
  above_all first here above lacks = elim (next_block 0 s.blocks s.filled) [
    | inl e ↦ nothing p m entries (λ j h. no_value j (ap (value_in j) e))
    | inr (next, there, k, o) ↦
        let k' : first.key ≡ first_of (concat s.blocks) = same_key _ first next here there ∙ k in
        nothing p m entries (λ j h. no_value j (
          value_in-no_prefix j p (concat s.blocks) h (
            lacking p (concat s.blocks) (sorted_blocks st n entries s p m)
              (ground (arith, rw k' at above, cmp-swap (first_of (concat s.blocks)) p))
              (rw k' at lacks))))
  ]

  from_first :
      (first : Option IndexEntry) (bound : Option ℕ)
      → get_elem? (index_of 0 s.blocks) 0 ≡ first
      → IsLowerBound p (index_of 0 s.blocks) bound
      → IsScanned p m entries
          (scan_from st n p s.file (index_of 0 s.blocks) m (first_block p first bound))
  unfolding first_block
  from_first first (some b) here h = from_lower_bound b h
  from_first none none here h =
      unfold scan_from in
      elim (next_block 0 s.blocks s.filled) [
        | inl e ↦ nothing p m entries (λ j g. no_value j (ap (value_in j) e))
        | inr (next, there, k, o) ↦ cc (here, there)
      ]
  from_first (some first) none here h = elim (Bool-cases (has_prefix first.key p)) [
    | inl b ↦ rw b (from_start first here)
    | inr b ↦ rw b (unfold scan_from in above_all first here (h 0 first (omega arith) here) b)
  ]

  scan_file-IsScanned : IsScanned p m entries (scan_file st n p m)
  unfolding scan_file
  scan_file-IsScanned =
      rw (s.at_file, s.at_index)
        (from_first (get_elem? (index_of 0 s.blocks) 0) (get_lower_bound p (index_of 0 s.blocks))
          refl
          (get_lower_bound-IsLowerBound p (index_of 0 s.blocks)
            (index_of-IsAscending 0 s.blocks s.filled (sorted_blocks st n entries s p m))))

-- The value of a key in the first `n` files, the newest first.
abbrev pub newest_below : Bytes → (ℕ → List Entry) → ℕ → Option Bytes
newest_below key entries zero = none
newest_below key entries (suc n) = or_else (value_in key (entries n)) (newest_below key entries n)

or_else_lem : (o a b : Option Bytes) → or_else (or_else o a) b ≡ or_else o (or_else a b)
or_else_lem none a b = refl
or_else_lem (some v) a b = refl

scan_files_lem :
    (st : SsTable) (entries : ℕ → List Entry) (p : Bytes) (n : ℕ) (m : Dict Bytes)
    → ((i : ℕ) → i < n → IsStored st i (entries i))
    → (m' : Dict Bytes) × (scan_files n st p m ≡ ok m')
      × ((j : Bytes)
          → Dict.lookup j m' ≡ (
              if has_prefix j p
              then or_else (Dict.lookup j m) (newest_below j entries n)
              else Dict.lookup j m))
unfolding scan_files
scan_files_lem st entries p zero m h = (
  m,
  refl,
  λ j. elim (Bool-cases (has_prefix j p)) [
    | inl b ↦ rw b (sym (or_else-none (Dict.lookup j m)))
    | inr b ↦ rw b
  ],
)
scan_files_lem st entries p (suc n) m h =
    let (m₁, first, has₁) = scan_file-IsScanned st n (entries n) (h n (omega arith)) p m in
    let (m₂, others, has₂) = scan_files_lem st entries p n m₁ (λ i hi. h i (omega arith)) in
    (
      m₂,
      rw first others,
      λ j. elim (Bool-cases (has_prefix j p)) [
        | inl b ↦ has₂ j ∙ rw (has₁ j, b) (or_else_lem (Dict.lookup j m) _ _)
        | inr b ↦ has₂ j ∙ rw (has₁ j, b)
      ],
    )

-- Of a table each of whose files holds sorted entries from its first byte on, with a byte or more behind
-- them, has fewer than 2 ^ 32 bytes, and has its own index block and index offset in the lists of the
-- table (after a compaction the offsets are those of other files): PrefixScan ends without an error, and
-- its map has exactly the keys with the prefix that the files have, each with the value of the newest file
-- with it.
pub prefix_scan-newest :
    (st : SsTable) (entries : ℕ → List Entry) (p : Bytes)
    → ((i : ℕ) → i < length st.first_level_files → IsStored st i (entries i))
    → (m : Dict Bytes) × (prefix_scan st p ≡ ok m)
      × ((j : Bytes)
          → Dict.lookup j m ≡ (
              if has_prefix j p
              then newest_below j entries (length st.first_level_files)
              else none))
unfolding prefix_scan Dict.lookup
prefix_scan-newest st entries p h = scan_files_lem st entries p (length st.first_level_files) [] h
