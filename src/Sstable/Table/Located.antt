-- ===== src/Sstable/Table/Located.antt =====
-- Where a block of the index lies among the entries of its file.
use golang_db.Base.{
  ℕ, zero, suc, ◌+◌, ◌≡◌, ◌≢◌, refl, sym, ap, ◌∙◌, ◌⊎◌, inl, inr, some, List, [], ◌∷◌, ◌++◌, arith,
  All,
}
use golang_db.Base.{length, get_elem?, length-append, append_assoc}
use golang_db.Memtable.{Entry}
use golang_db.Sstable.Blocks.{IndexEntry}
use golang_db.Sstable.Blocks.Decoded.{encode_all}
use golang_db.Sstable.Blocks.Written.{first_of, index_of, concat, encode_all-append}

-- The block that the entry `ie` at place `i` of the index stands for, and what lies around it.
pub record Located (start : ℕ) (blocks : List (List Entry)) (i : ℕ) (ie : IndexEntry) : Type 0 where
  pub before : List Entry
  pub block : List Entry
  pub after : List Entry
  pub whole : concat blocks ≡ before ++ (block ++ after)
  pub key : ie.key ≡ first_of block
  pub filled : block ≢ []
  pub offset : ie.offset ≡ start + length (encode_all before)
  pub last :
      (after ≡ [])
      ⊎ ((next : IndexEntry) × (get_elem? (index_of start blocks) (suc i) ≡ some next)
          × (next.key ≡ first_of after)
          × (next.offset ≡ ie.offset + length (encode_all block)))
  pub end : (after ≡ []) → length (index_of start blocks) ≡ suc i

first_of-append : (b rest : List Entry) → b ≢ [] → first_of (b ++ rest) ≡ first_of b
first_of-append [] rest h = absurd (h refl)
first_of-append (e ∷ b) rest h = refl

pub concat-empty :
    (blocks : List (List Entry)) (start : ℕ)
    → All (λ (b : List Entry). b ≢ []) blocks
    → concat blocks ≡ []
    → length (index_of start blocks) ≡ 0
concat-empty [] start h e = refl
concat-empty ([] ∷ blocks) start h e = absurd (h.0 refl)
concat-empty ((x ∷ b) ∷ blocks) start h e = cc e

pub next_block :
    (start : ℕ) (blocks : List (List Entry))
    → All (λ (b : List Entry). b ≢ []) blocks
    → (concat blocks ≡ [])
      ⊎ ((next : IndexEntry) × (get_elem? (index_of start blocks) 0 ≡ some next)
          × (next.key ≡ first_of (concat blocks))
          × (next.offset ≡ start))
next_block start [] h = inl refl
next_block start (b ∷ blocks) h = inr (
  record { key = first_of b; offset = start },
  refl,
  sym (first_of-append b (concat blocks) h.0),
  refl,
)

pub locate :
    (start : ℕ) (blocks : List (List Entry)) (i : ℕ) (ie : IndexEntry)
    → All (λ (b : List Entry). b ≢ []) blocks
    → get_elem? (index_of start blocks) i ≡ some ie
    → Located start blocks i ie
locate start [] i ie h e = cc e
locate start (b ∷ blocks) zero ie h e = record {
  before = [];
  block = b;
  after = concat blocks;
  whole = refl;
  key = ground arith;
  filled = h.0;
  offset = ground arith;
  last = elim (next_block (start + length (encode_all b)) blocks h.1) [
    | inl none_left ↦ inl none_left
    | inr (next, at_next, key, offset) ↦ inr (next, at_next, key, ground arith)
  ];
  end = λ none_left. ap suc (concat-empty blocks (start + length (encode_all b)) h.1 none_left);
}
locate start (b ∷ blocks) (suc i) ie h e =
    let l = locate (start + length (encode_all b)) blocks i ie h.1 e in
    record {
      before = b ++ l.before;
      block = l.block;
      after = l.after;
      whole =
          ap (λ (t : List Entry). b ++ t) l.whole
          ∙ sym (append_assoc b l.before (l.block ++ l.after));
      key = l.key;
      filled = l.filled;
      offset = omega (
        arith,
        l.offset,
        ap length (encode_all-append b l.before),
        length-append (encode_all b) (encode_all l.before),
      );
      last = l.last;
      end = λ none_left. ap suc (l.end none_left);
    }
