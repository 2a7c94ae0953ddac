-- ===== src/Sstable/Table/Lookup.antt =====
-- What Get of sstable/sstable.go finds in one file that Write has written from sorted entries.
use golang_db.Base.{Option-cases}
use golang_db.Sstable.Blocks
use golang_db.Base.{
  ℕ, suc, ◌+◌, ◌-◌, ◌≤◌, ◌≡◌, ◌≢◌, refl, ◌∙◌, inl, inr, Option, none, some, true, List, [], ◌∷◌,
  ◌++◌, arith, All,
}
use golang_db.Base.{
  length, take, length-append, drop-append, take-append_ge, append-nil, Result, ok, err,
  datablock_corrupted,
}
use golang_db.Base.Bytes.{Bytes, IsU32, str_lt, str_le, cmp-swap, cmp-eq, cmp_trans}
use golang_db.Memtable.{Entry, less}
use golang_db.Btree.{SortedBy}
use golang_db.Sstable.Blocks.{IndexEntry, find_in_block}
use golang_db.Sstable.Blocks.Decoded.{
  encode_all, value_in, find_in_block-some, find_in_block-none, find_in_block-one_byte,
  length-encode,
}
use golang_db.Sstable.Blocks.Written.{first_of}
use golang_db.Sstable.Table.{read_at_eof}

pub value_in-append :
    (key : Bytes) (xs ys : List Entry)
    → value_in key xs ≡ none
    → value_in key (xs ++ ys) ≡ value_in key ys
value_in-append key [] ys h = refl
value_in-append key (e ∷ xs) ys h = ground (arith, value_in-append key xs ys)

-- Keys below, and above, the one that is looked for.
value_in-below :
    (key : Bytes) (xs : List Entry)
    → All (λ (e : Entry). str_lt e.key key ≡ true) xs
    → value_in key xs ≡ none
value_in-below key [] h = refl
value_in-below key (e ∷ xs) h = ground (arith, value_in-below key xs h.1)

pub value_in-above :
    (key : Bytes) (xs : List Entry)
    → All (λ (e : Entry). str_lt key e.key ≡ true) xs
    → value_in key xs ≡ none
value_in-above key [] h = refl
value_in-above key (e ∷ xs) h = ground (arith, cmp-swap key e.key, value_in-above key xs h.1)

pub sorted_right : (xs ys : List Entry) → SortedBy less (xs ++ ys) → SortedBy less ys
sorted_right [] ys s = s
sorted_right (x ∷ xs) ys s = sorted_right xs ys s.1

all_in :
    (P : Entry → Type 0) (xs : List Entry) (y : Entry) (ys : List Entry)
    → All P (xs ++ y ∷ ys)
    → P y
all_in P [] y ys h = h.0
all_in P (x ∷ xs) y ys h = all_in P xs y ys h.1

-- In a sorted list, what stands before an entry is below it.
before_below :
    (xs : List Entry) (y : Entry) (ys : List Entry)
    → SortedBy less (xs ++ y ∷ ys)
    → All (λ (e : Entry). str_lt e.key y.key ≡ true) xs
before_below [] y ys s = tt
before_below (x ∷ xs) y ys s =
    (all_in (λ (z : Entry). less x z ≡ true) xs y ys s.0, before_below xs y ys s.1)

weaken : (P Q : Entry → Type 0) (xs : List Entry) → ((e : Entry) → P e → Q e) → All P xs → All Q xs
weaken P Q [] f h = tt
weaken P Q (e ∷ xs) f h = (f e h.0, weaken P Q xs f h.1)

-- The list from a first key at or below the key: nothing before it has the key.
pub value_in-before :
    (key : Bytes) (before block after : List Entry)
    → SortedBy less (before ++ (block ++ after))
    → block ≢ []
    → str_le (first_of block) key ≡ true
    → value_in key before ≡ none
value_in-before key before [] after s n le = absurd (n refl)
value_in-before key before (e ∷ block) after s n le = value_in-below key before (
    weaken (λ x. str_lt x.key e.key ≡ true) (λ x. str_lt x.key key ≡ true) before
      (λ x h. ground (arith, cmp_trans x.key e.key key, cmp-eq e.key key))
      (before_below before e (block ++ after) s))

-- The list from a first key above the key has not the key.
pub value_in-after :
    (key : Bytes) (after : List Entry)
    → SortedBy less after
    → str_lt key (first_of after) ≡ true
    → value_in key after ≡ none
value_in-after key [] s lt = refl
value_in-after key (e ∷ after) s lt = value_in-above key (e ∷ after) (
  lt,
  weaken (λ x. less e x ≡ true) (λ x. str_lt key x.key ≡ true) after
      (λ x h. ground (arith, cmp_trans key e.key x.key)) s.0,
)

pub value_in-left :
    (key : Bytes) (xs ys : List Entry)
    → value_in key ys ≡ none
    → value_in key (xs ++ ys) ≡ value_in key xs
value_in-left key [] ys h = h
value_in-left key (e ∷ xs) ys h = ground (arith, value_in-left key xs ys h)

-- What ReadAt delivers for a block: its bytes, and one byte more.
pub read_block :
    (front block tail : Bytes) (x : ℕ) (n : ℕ)
    → n ≡ length block + 1
    → read_at_eof (front ++ (block ++ x ∷ tail)) n (length front) ≡ block ++ x ∷ []
unfolding read_at_eof
read_block front block tail x n hn =
    rw (drop-append (length front) front (block ++ x ∷ tail) refl, cut, full)
      (append-nil (block ++ x ∷ []))
  where
    cut : take n (block ++ x ∷ tail) ≡ block ++ x ∷ []
    cut =
        let e : n - length block ≡ suc 0 = omega arith in
        take-append_ge n block (x ∷ tail) (omega arith) ∙ rw e

    full : n - length (block ++ x ∷ []) ≡ 0
    full = omega (arith, length-append block (x ∷ []))

pub length-le-encode_all : (es : List Entry) → length es ≤ length (encode_all es)
length-le-encode_all [] = omega arith
length-le-encode_all (e ∷ es) = omega (
  arith,
  length-le-encode_all es,
  length-encode e,
  length-append (encode_all []) (encode_all es),
  length-append (Blocks.encode e) (encode_all es),
)

-- The loop over a block and the byte behind it.
abbrev pub block_result : Option Bytes → Result Bytes
block_result none = err datablock_corrupted
block_result (some v) = ok v

pub find_in_block_lem :
    (es : List Entry) (x : ℕ) (key : Bytes)
    → IsU32 (length (encode_all es ++ x ∷ []))
    → find_in_block (length (encode_all es ++ x ∷ [])) (encode_all es ++ x ∷ []) 0 key
      ≡ block_result (value_in key es)
find_in_block_lem es x key small = elim (Option-cases (value_in key es)) [
  | inl missing ↦
      let rest : ℕ = length (encode_all es) - length es in
      let fuel : length (encode_all es ++ x ∷ []) ≡ length es + suc rest =
        omega (arith, length-append (encode_all es) (x ∷ []), length-le-encode_all es) in
      rw (missing, fuel)
        (find_in_block-none (encode_all es ++ x ∷ []) (x ∷ []) key small es (suc rest) 0 refl
            missing
          ∙ find_in_block-one_byte (encode_all es ++ x ∷ []) (x ∷ []) key small rest
              (0 + length (encode_all es)) (omega (arith, length-append (encode_all es) (x ∷ []))))
  | inr (v, present) ↦ rw present (
      find_in_block-some (encode_all es ++ x ∷ []) (x ∷ []) key small es
        (length (encode_all es ++ x ∷ [])) 0 v refl
        (omega (arith, length-append (encode_all es) (x ∷ []), length-le-encode_all es)) present)
]
