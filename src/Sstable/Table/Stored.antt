-- ===== src/Sstable/Table/Stored.antt =====
-- Get of sstable/sstable.go on a file whose blocks, index and footer Write has written.
use golang_db.Base.{get_elem?-lt}
use mathlib.Core.Path.{subst}
use golang_db.Base.{
  ℕ, suc, ◌+◌, ◌-◌, ◌≡◌, ◌≢◌, refl, ap, ◌∙◌, ◌⊎◌, inl, inr, none, some, true, List, [], ◌∷◌, ◌++◌,
  arith, All,
}
use golang_db.Base.{lt→ltb, ge→ltb, length, get_elem?, length-append, append_assoc, ok}
use golang_db.Base.Bytes.{Bytes, IsU32, str_lt, str_le}
use golang_db.Memtable.{Entry, less}
use golang_db.Btree.{SortedBy}
use golang_db.Sstable.Blocks.{IndexEntry}
use golang_db.Sstable.Blocks.Decoded.{encode_all, value_in}
use golang_db.Sstable.Blocks.Written.{first_of, index_of, concat, encode_all-append}
use golang_db.Sstable.Search.{IsAscending}
use golang_db.Sstable.Table.{SsFile, SsTable, at, end_offset, get_value_from_block}
use golang_db.Sstable.Table.Located.{Located}
use golang_db.Sstable.Table.Lookup.{
  value_in-append, value_in-before, value_in-after, value_in-left, sorted_right, read_block,
  block_result, find_in_block_lem,
}

-- The file `n` of the table holds the sorted entries: their bytes, and at least a byte behind them.
pub record IsStored (st : SsTable) (n : ℕ) (entries : List Entry) : Type 0 where
  pub file : SsFile
  pub blocks : List (List Entry)
  pub next_byte : ℕ
  pub tail : Bytes
  pub at_file : at st.first_level_files n ≡ ok file
  pub at_index : at st.index_blocks n ≡ ok (index_of 0 blocks)
  pub at_offset : at st.index_offsets n ≡ ok (length (encode_all entries))
  pub contents : file.contents ≡ encode_all entries ++ next_byte ∷ tail
  pub cut : concat blocks ≡ entries
  pub filled : All (λ (b : List Entry). b ≢ []) blocks
  pub sorted : SortedBy less entries
  pub small : IsU32 (length file.contents)

pub at-some {ℓ} :
    {A : Type ℓ} (xs : List A) (i : ℕ) (x : A) → get_elem? xs i ≡ some x → at xs i ≡ ok x
unfolding at
at-some xs i x h = rw (h, at)

first_byte :
    (xs : Bytes) (x : ℕ) (tail : Bytes) → (y : ℕ) × (rest : Bytes) × (xs ++ x ∷ tail ≡ y ∷ rest)
first_byte [] x tail = (x, tail, refl)
first_byte (z ∷ xs) x tail = (z, xs ++ x ∷ tail, refl)

module _ (key : Bytes) (blocks : List (List Entry)) (b : ℕ) (ie : IndexEntry)
    (l : Located 0 blocks b ie) (sorted : SortedBy less (concat blocks)) where
  sorted' : SortedBy less (l.before ++ (l.block ++ l.after))
  sorted' = subst (λ (es : List Entry). SortedBy less es) l.whole sorted

  -- Only the block of the lower bound can have the key.
  pub value_in_block :
      str_le ie.key key ≡ true
      → ((next : IndexEntry)
          → get_elem? (index_of 0 blocks) (suc b) ≡ some next
          → str_lt key next.key ≡ true)
      → value_in key (concat blocks) ≡ value_in key l.block
  value_in_block le above =
      ap (value_in key) l.whole
      ∙ value_in-append key l.before (l.block ++ l.after)
          (value_in-before key l.before l.block l.after sorted' l.filled (rw l.key at le))
      ∙ value_in-left key l.block l.after (behind l.last)
    where
      behind :
          (l.after ≡ [])
            ⊎ ((next : IndexEntry) × (get_elem? (index_of 0 blocks) (suc b) ≡ some next)
                × (next.key ≡ first_of l.after)
                × (next.offset ≡ ie.offset + length (encode_all l.block)))
          → value_in key l.after ≡ none
      behind (inl e) = rw e
      behind (inr (next, here, k, o)) =
          value_in-after key l.after
            (sorted_right l.block l.after (sorted_right l.before (l.block ++ l.after) sorted'))
            (rw k at (above next here))

  whole_length :
      length (encode_all (concat blocks))
      ≡ length (encode_all l.before) + (length (encode_all l.block) + length (encode_all l.after))
  whole_length = omega (
    arith,
    ap (λ (es : List Entry). length (encode_all es)) l.whole,
    ap length (encode_all-append l.before (l.block ++ l.after)),
    ap length (encode_all-append l.block l.after),
    length-append (encode_all l.before) (encode_all (l.block ++ l.after)),
    length-append (encode_all l.block) (encode_all l.after),
  )

  pub end_offset_lem :
      end_offset (index_of 0 blocks) b (length (encode_all (concat blocks)))
      ≡ ok (ie.offset + length (encode_all l.block))
  unfolding end_offset
  end_offset_lem = elim l.last [
    | inl e ↦ rw (ge→ltb (b + 1) (length (index_of 0 blocks)) (omega (arith, l.end e))) (
        ap ok (
          omega
            (arith, whole_length, l.offset, ap (λ (es : List Entry). length (encode_all es)) e)))
    | inr (next, here, k, o) ↦
        let e : b + 1 ≡ suc b = omega arith in
        rw
          (
            lt→ltb (b + 1) (length (index_of 0 blocks))
                (omega (arith, get_elem?-lt (index_of 0 blocks) (suc b) next here)),
            e,
            at-some (index_of 0 blocks) (suc b) next here,
          )
          (ap ok o)
  ]

  -- The bytes of the block, and what stands before and behind it.
  block_bytes :
      (x : ℕ) (tail : Bytes)
      → (y : ℕ) × (rest : Bytes) × (encode_all (concat blocks) ++ x ∷ tail
          ≡ encode_all l.before ++ (encode_all l.block ++ y ∷ rest))
  block_bytes x tail =
      let (y, rest, e) = first_byte (encode_all l.after) x tail in
      (
        y,
        rest,
        ap (λ (es : List Entry). encode_all es ++ x ∷ tail) l.whole
            ∙ ap (λ (t : Bytes). t ++ x ∷ tail)
                (encode_all-append l.before (l.block ++ l.after)
                  ∙ ap (λ (t : Bytes). encode_all l.before ++ t)
                      (encode_all-append l.block l.after))
            ∙ append_assoc (encode_all l.before) (encode_all l.block ++ encode_all l.after)
                (x ∷ tail)
            ∙ ap (λ (t : Bytes). encode_all l.before ++ t)
                (append_assoc (encode_all l.block) (encode_all l.after) (x ∷ tail)
                  ∙ ap (λ (t : Bytes). encode_all l.block ++ t) e),
      )

  pub get_value_lem :
      (file : SsFile) (x : ℕ) (tail : Bytes)
      → file.contents ≡ encode_all (concat blocks) ++ x ∷ tail
      → IsU32 (length file.contents)
      → get_value_from_block file key ie.offset (ie.offset + length (encode_all l.block))
        ≡ block_result (value_in key l.block)
  unfolding get_value_from_block
  get_value_lem file x tail h small =
      let (y, rest, e) = block_bytes x tail in
      let shape = h ∙ e in
      let start : ie.offset ≡ length (encode_all l.before) = omega (arith, l.offset) in
      let n : length (encode_all l.before)
            + length (encode_all l.block)
            + 1
            - length (encode_all l.before)
          ≡ length (encode_all l.block) + 1 =
        omega arith in
      rw
        (
          start,
          ge→ltb (length (encode_all l.before) + length (encode_all l.block) + 1)
              (length (encode_all l.before)) (omega arith),
          n,
          shape,
          read_block (encode_all l.before) (encode_all l.block) rest y
              (length (encode_all l.block) + 1) refl,
        )
        (find_in_block_lem l.block y key (
          omega (
            arith,
            ap length shape,
            length-append (encode_all l.before) (encode_all l.block ++ y ∷ rest),
            length-append (encode_all l.block) (y ∷ rest),
            length-append (encode_all l.block) (y ∷ []),
          )))

-- The first keys of the blocks of a sorted list ascend.
first_below :
    (b : List Entry) (rest : List Entry) (P : Bytes → Type 0)
    → b ≢ []
    → All (λ (e : Entry). P e.key) (b ++ rest)
    → P (first_of b)
first_below [] rest P n h = absurd (n refl)
first_below (e ∷ b) rest P n h = h.0

all_right : (xs ys : List Entry) (P : Entry → Type 0) → All P (xs ++ ys) → All P ys
all_right [] ys P h = h
all_right (x ∷ xs) ys P h = all_right xs ys P h.1

firsts-above :
    (k : Bytes) (start : ℕ) (blocks : List (List Entry))
    → All (λ (b : List Entry). b ≢ []) blocks
    → All (λ (e : Entry). str_lt k e.key ≡ true) (concat blocks)
    → All (λ (ie : IndexEntry). str_lt k ie.key ≡ true) (index_of start blocks)
firsts-above k start [] f h = tt
firsts-above k start (b ∷ blocks) f h = (
  first_below b (concat blocks) (λ j. str_lt k j ≡ true) f.0 h,
  firsts-above k (start + length (encode_all b)) blocks f.1
      (all_right b (concat blocks) (λ e. str_lt k e.key ≡ true) h),
)

pub index_of-IsAscending :
    (start : ℕ) (blocks : List (List Entry))
    → All (λ (b : List Entry). b ≢ []) blocks
    → SortedBy less (concat blocks)
    → IsAscending (index_of start blocks)
index_of-IsAscending start [] f s = tt
index_of-IsAscending start ([] ∷ blocks) f s = absurd (f.0 refl)
index_of-IsAscending start ((e ∷ b) ∷ blocks) f s = (
  firsts-above e.key (start + length (encode_all (e ∷ b))) blocks f.1
      (all_right b (concat blocks) (λ x. less e x ≡ true) s.0),
  index_of-IsAscending (start + length (encode_all (e ∷ b))) blocks f.1
      (sorted_right b (concat blocks) s.1),
)
