-- ===== src/Sstable/Compaction/Swap.antt =====
-- What atomicSwap of sstable/compaction.go makes of the table.
use golang_db.Base.{ℕ, ◌≡◌, refl, ap, true, false, List, [], ◌∷◌, ◌++◌, arith, All, length}
use golang_db.Base.Bytes.{str_eq_iff}
use golang_db.Sstable.Blocks.{IndexEntry}
use golang_db.Sstable.Table.{SsFile, SsTable}
use golang_db.Sstable.Compaction.{has_name, kept_files, kept_blocks, names, atomic_swap}

-- The files are the old ones and, behind them, those that have come since.
pub record IsSnapshot (old newer : List SsFile) (old_blocks newer_blocks : List (List IndexEntry))
    (st : SsTable) : Type 0 where
  pub files : st.first_level_files ≡ old ++ newer
  pub blocks : st.index_blocks ≡ old_blocks ++ newer_blocks
  pub same_length : length old ≡ length old_blocks
  pub same_length' : length newer ≡ length newer_blocks
  pub fresh : All (λ (f : SsFile). has_name old f.name ≡ false) newer

weaken :
    (f : SsFile) (known fs : List SsFile)
    → All (λ (g : SsFile). has_name known g.name ≡ true) fs
    → All (λ (g : SsFile). has_name (f ∷ known) g.name ≡ true) fs
unfolding has_name
weaken f known [] h = tt
weaken f known (g ∷ fs) h = (ground arith, weaken f known fs h.1)

named : (known : List SsFile) → All (λ (g : SsFile). has_name known g.name ≡ true) known
named [] = tt
named (f ∷ known) = (
  unfold has_name in ground (arith, str_eq_iff f.name f.name),
  weaken f known known (named known),
)

kept_newer :
    (known newer : List SsFile)
    → All (λ (f : SsFile). has_name known f.name ≡ false) newer
    → kept_files known newer ≡ newer
unfolding kept_files
kept_newer known [] h = refl
kept_newer known (f ∷ fs) h = rw h.0 (ap (λ (l : List SsFile). f ∷ l) (kept_newer known fs h.1))

kept_files_lem :
    (known old newer : List SsFile)
    → All (λ (f : SsFile). has_name known f.name ≡ true) old
    → All (λ (f : SsFile). has_name known f.name ≡ false) newer
    → kept_files known (old ++ newer) ≡ newer
unfolding kept_files
kept_files_lem known [] newer h g = kept_newer known newer g
kept_files_lem known (f ∷ old) newer h g = rw h.0 (kept_files_lem known old newer h.1 g)

kept_blocks_newer :
    (known newer : List SsFile) (bs : List (List IndexEntry))
    → length newer ≡ length bs
    → All (λ (f : SsFile). has_name known f.name ≡ false) newer
    → kept_blocks known newer bs ≡ bs
unfolding kept_blocks
kept_blocks_newer known [] [] e h = refl
kept_blocks_newer known [] (b ∷ bs) e h = absurd (omega arith)
kept_blocks_newer known (f ∷ fs) [] e h = absurd (omega arith)
kept_blocks_newer known (f ∷ fs) (b ∷ bs) e h =
    rw h.0
      (ap (λ (l : List (List IndexEntry)). b ∷ l) (kept_blocks_newer known fs bs (omega arith) h.1))

kept_blocks_lem :
    (known old newer : List SsFile) (bs cs : List (List IndexEntry))
    → length old ≡ length bs
    → length newer ≡ length cs
    → All (λ (f : SsFile). has_name known f.name ≡ true) old
    → All (λ (f : SsFile). has_name known f.name ≡ false) newer
    → kept_blocks known (old ++ newer) (bs ++ cs) ≡ cs
unfolding kept_blocks
kept_blocks_lem known [] newer [] cs e e' h g = kept_blocks_newer known newer cs e' g
kept_blocks_lem known [] newer (b ∷ bs) cs e e' h g = absurd (omega arith)
kept_blocks_lem known (f ∷ old) newer [] cs e e' h g = absurd (omega arith)
kept_blocks_lem known (f ∷ old) newer (b ∷ bs) cs e e' h g =
    rw h.0 (kept_blocks_lem known old newer bs cs (omega arith) e' h.1 g)

-- The swap puts the compacted file in the place of the files that were compacted and before those that
-- have come since, with their index blocks, and saves their names in this order. The offsets of the
-- index blocks stay those of the files before the swap, the oldest compacted file's first.
pub atomic_swap_lem :
    (file : SsFile) (old newer : List SsFile) (index_block : List IndexEntry)
    (old_blocks newer_blocks : List (List IndexEntry)) (index_offset : ℕ) (st : SsTable)
    → IsSnapshot old newer old_blocks newer_blocks st
    → ((atomic_swap file old index_block index_offset st).first_level_files ≡ file ∷ newer)
      × ((atomic_swap file old index_block index_offset st).index_blocks
          ≡ index_block ∷ newer_blocks)
      × ((atomic_swap file old index_block index_offset st).saved.file_names ≡ names (file ∷ newer))
      × ((atomic_swap file old index_block index_offset st).index_offsets ≡ st.index_offsets)
unfolding atomic_swap
atomic_swap_lem file old newer index_block old_blocks newer_blocks index_offset st s =
    let kept : kept_files old st.first_level_files ≡ newer =
      rw s.files (kept_files_lem old old newer (named old) s.fresh) in
    (
      ap (λ (l : List SsFile). file ∷ l) kept,
      ap (λ (l : List (List IndexEntry)). index_block ∷ l)
          (rw (s.files, s.blocks)
            (kept_blocks_lem old old newer old_blocks newer_blocks s.same_length s.same_length'
              (named old) s.fresh)),
      ap (λ (l : List SsFile). names (file ∷ l)) kept,
      refl,
    )
