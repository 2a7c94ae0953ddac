-- ===== src/Sstable/Blocks/Layout.antt =====
-- The layout of the data blocks of a file: writeDataBlocks of sstable/sstable.go as a whole.
use golang_db.Base.{
  ℕ, ◌+◌, ◌≡◌, ◌≢◌, refl, sym, ap, ◌∙◌, true, false, Bool-cases, inl, inr, List, [], ◌∷◌, ◌++◌,
  arith,
}
use golang_db.Base.{ltb, length, All, length-append, append_assoc, append-nil}
use golang_db.Base.Bytes.{str_eq, str_eq_iff}
use golang_db.Memtable.{Entry}
use golang_db.Sstable.Blocks.{
  Blocks, no_blocks, add_entry, close_block, start_block, write_entry, write_entries, last_block,
  write_data_blocks,
}
use golang_db.Sstable.Blocks.Decoded.{encode_all}
use golang_db.Sstable.Blocks.Written.{
  first_of, index_of, concat, end_of, IsWriting, add_entry-IsWriting, close_block-IsWriting,
  encode_all-append, concat-snoc,
}
use mathlib.Core.Path.{subst}

abbrev pub IsKeyed : Entry → Type 0
IsKeyed e = e.key ≢ []

-- The writer has taken the entries `taken`, in whole blocks and an open one.
pub record Progress (taken : List Entry) (b : Blocks) : Type 0 where
  pub done : List (List Entry)
  pub open_block : List Entry
  pub writing : IsWriting done open_block b
  pub all_taken : concat done ++ open_block ≡ taken
  pub keyed : All IsKeyed open_block

All-snoc : (o : List Entry) (e : Entry) → All IsKeyed o → IsKeyed e → All IsKeyed (o ++ e ∷ [])
All-snoc [] e h k = (k, tt)
All-snoc (x ∷ o) e h k = (h.0, All-snoc o e h.1 k)

snoc-nonempty : (o : List Entry) (e : Entry) → o ++ e ∷ [] ≢ []
snoc-nonempty [] e h = cc h
snoc-nonempty (x ∷ o) e h = cc h

write_entry-Progress :
    (limit : ℕ) (taken : List Entry) (b : Blocks) (e : Entry)
    → IsKeyed e
    → Progress taken b
    → Progress (taken ++ e ∷ []) (write_entry limit b e)
unfolding write_entry
write_entry-Progress limit taken b e k p =
    elim (Bool-cases (ltb limit (add_entry b e).block_length)) [
      | inl full ↦ rw full (record {
        done = p.done ++ (p.open_block ++ e ∷ []) ∷ [];
        open_block = [];
        writing =
            close_block-IsWriting p.done (p.open_block ++ e ∷ []) (add_entry b e)
              (snoc-nonempty p.open_block e) added;
        all_taken = append-nil _ ∙ concat-snoc p.done (p.open_block ++ e ∷ []) ∙ taken';
        keyed = tt;
      })
      | inr more ↦ rw more (record {
        done = p.done;
        open_block = p.open_block ++ e ∷ [];
        writing = added;
        all_taken = taken';
        keyed = All-snoc p.open_block e p.keyed k;
      })
    ]
  where
    added : IsWriting p.done (p.open_block ++ e ∷ []) (add_entry b e)
    added = add_entry-IsWriting p.done p.open_block b e p.keyed p.writing

    taken' : concat p.done ++ (p.open_block ++ e ∷ []) ≡ taken ++ e ∷ []
    taken' =
        sym (append_assoc (concat p.done) p.open_block (e ∷ []))
        ∙ ap (λ (l : List Entry). l ++ e ∷ []) p.all_taken

write_entries-Progress :
    (limit : ℕ) (es taken : List Entry) (b : Blocks)
    → All IsKeyed es
    → Progress taken b
    → Progress (taken ++ es) (write_entries limit b es)
unfolding write_entries
write_entries-Progress limit [] taken b k p =
    subst (λ (l : List Entry). Progress l b) (sym (append-nil taken)) p
write_entries-Progress limit (e ∷ es) taken b k p =
    subst (λ (l : List Entry). Progress l (write_entries limit (write_entry limit b e) es))
      (append_assoc taken (e ∷ []) es)
      (write_entries-Progress limit es (taken ++ e ∷ []) (write_entry limit b e) k.1
        (write_entry-Progress limit taken b e k.0 p))

-- What a finished file holds: the entries, cut into blocks that are not empty, with an index entry for
-- each block.
pub record IsLaidOut (entries : List Entry) (b : Blocks) : Type 0 where
  pub blocks : List (List Entry)
  pub cut : concat blocks ≡ entries
  pub filled : All (λ (block : List Entry). block ≢ []) blocks
  pub file : b.file ≡ encode_all entries
  pub index : b.index_block ≡ index_of 0 blocks
  pub offset : b.offset ≡ length b.file

length-concat :
    (start : ℕ) (blocks : List (List Entry))
    → end_of start blocks ≡ start + length (encode_all (concat blocks))
length-concat start [] = omega arith
length-concat start (b ∷ blocks) = omega (
  arith,
  length-concat (start + length (encode_all b)) blocks,
  ap length (encode_all-append b (concat blocks)),
  length-append (encode_all b) (encode_all (concat blocks)),
)

open_first : (o : List Entry) → All IsKeyed o → str_eq (first_of o) [] ≡ true → o ≡ []
open_first [] k h = refl
open_first (e ∷ o) k h = absurd (k.0 ((str_eq_iff e.key []).0 h))

open_filled : (o : List Entry) → str_eq (first_of o) [] ≡ false → o ≢ []
open_filled o h e =
    cc (h, ap (λ (l : List Entry). str_eq (first_of l) []) e, (str_eq_iff [] []).1 refl)

whole-IsLaidOut :
    (entries : List Entry) (blocks : List (List Entry)) (b : Blocks)
    → concat blocks ≡ entries
    → All (λ (block : List Entry). block ≢ []) blocks
    → b.file ≡ encode_all (concat blocks)
    → b.index_block ≡ index_of 0 blocks
    → b.offset ≡ end_of 0 blocks
    → IsLaidOut entries b
whole-IsLaidOut entries blocks b cut filled file index offset = record {
  blocks = blocks;
  cut = cut;
  filled = filled;
  file = file ∙ ap encode_all cut;
  index = index;
  offset = omega (arith, length-concat 0 blocks, ap length file);
}

last_block-IsLaidOut :
    (entries : List Entry) (b : Blocks) → Progress entries b → IsLaidOut entries (last_block b)
unfolding last_block
last_block-IsLaidOut entries b p = elim (Bool-cases (str_eq b.block_first_key [])) [
  | inl closed ↦
      let e : p.open_block ≡ [] = open_first p.open_block p.keyed (rw p.writing.first at closed) in
      rw closed (
        whole-IsLaidOut entries p.done b
          (sym (append-nil (concat p.done))
            ∙ ap (λ (l : List Entry). concat p.done ++ l) (sym e)
            ∙ p.all_taken)
          p.writing.filled p.writing.file p.writing.index
          (omega (arith, p.writing.offset, ap (λ (l : List Entry). length (encode_all l)) e)))
  | inr some_open ↦
      let w =
        close_block-IsWriting p.done p.open_block b
          (open_filled p.open_block (rw p.writing.first at some_open)) p.writing in
      rw some_open (
        whole-IsLaidOut entries (p.done ++ p.open_block ∷ []) (close_block b)
          (concat-snoc p.done p.open_block ∙ p.all_taken) w.filled
          (unfold close_block start_block in w.file) (unfold close_block start_block in w.index)
          (unfold close_block start_block in w.start))
]

-- For entries whose keys are not empty, the file of data blocks holds their encodings, all of them and
-- in order, whatever the block length. They are cut into blocks that are not empty; the index has one
-- entry for each block, with the block's first key and the offset of its first byte; and the offset
-- that is returned is the end of the data.
pub write_data_blocks-IsLaidOut :
    (limit : ℕ) (entries : List Entry)
    → All IsKeyed entries
    → IsLaidOut entries (write_data_blocks limit entries)
unfolding write_data_blocks
write_data_blocks-IsLaidOut limit entries k =
    last_block-IsLaidOut entries (write_entries limit no_blocks entries) (
      write_entries-Progress limit entries [] no_blocks k (record {
        done = [];
        open_block = [];
        writing = record {
          index = refl;
          file = refl;
          start = refl;
          buf = refl;
          first = refl;
          long = refl;
          offset = omega arith;
          filled = tt;
        };
        all_taken = refl;
        keyed = tt;
      }))
