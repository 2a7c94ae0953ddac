-- ===== src/Sstable/Blocks/Written.antt =====
-- What writeDataBlocks of sstable/sstable.go writes, and what it notes in the index.
use golang_db.Base.Bytes.{cmp}
use golang_db.Base.{ℕ, ◌+◌, ◌≡◌, ◌≢◌, refl, sym, ap, ◌∙◌, List, [], ◌∷◌, ◌++◌, arith}
use golang_db.Base.{if◌then◌else◌, length, All, length-append, append_assoc, append-nil}
use golang_db.Base.Bytes.{Bytes, str_eq, str_eq_iff}
use golang_db.Memtable.{Entry}
use golang_db.Sstable.Blocks.{
  IndexEntry, Blocks, encode, first_key, add_entry, close_block, start_block,
}
use golang_db.Sstable.Blocks.Decoded.{encode_all}

-- A block of entries, and the index entry that the writer notes for it.
abbrev pub first_of : List Entry → Bytes
first_of [] = []
first_of (e ∷ rest) = e.key

-- The blocks one after the other, from an offset on.
abbrev pub index_of : ℕ → List (List Entry) → List IndexEntry
index_of start [] = []
index_of start (b ∷ rest) =
    record { key = first_of b; offset = start } ∷ index_of (start + length (encode_all b)) rest

abbrev pub concat : List (List Entry) → List Entry
concat [] = []
concat (b ∷ rest) = b ++ concat rest

-- The end of the blocks.
abbrev pub end_of : ℕ → List (List Entry) → ℕ
end_of start [] = start
end_of start (b ∷ rest) = end_of (start + length (encode_all b)) rest

-- The state of the writer: whole blocks, and an open one.
pub record IsWriting (done : List (List Entry)) (open_block : List Entry) (b : Blocks)
    : Type 0 where
  pub index : b.index_block ≡ index_of 0 done
  pub file : b.file ≡ encode_all (concat done)
  pub start : b.block_start_offset ≡ end_of 0 done
  pub buf : b.block_buf ≡ encode_all open_block
  pub first : b.block_first_key ≡ first_of open_block
  pub long : b.block_length ≡ length (encode_all open_block)
  pub offset : b.offset ≡ end_of 0 done + length (encode_all open_block)
  pub filled : All (λ (block : List Entry). block ≢ []) done

pub encode_all-append :
    (xs ys : List Entry) → encode_all (xs ++ ys) ≡ encode_all xs ++ encode_all ys
encode_all-append [] ys = refl
encode_all-append (e ∷ xs) ys =
    ap (λ (t : Bytes). encode e ++ t) (encode_all-append xs ys)
    ∙ sym (append_assoc (encode e) (encode_all xs) (encode_all ys))

pub index_of-snoc :
    (start : ℕ) (done : List (List Entry)) (b : List Entry)
    → index_of start (done ++ b ∷ [])
      ≡ index_of start done ++ record { key = first_of b; offset = end_of start done } ∷ []
index_of-snoc start [] b = refl
index_of-snoc start (c ∷ done) b =
    ap (λ (l : List IndexEntry). record { key = first_of c; offset = start } ∷ l)
      (index_of-snoc (start + length (encode_all c)) done b)

pub end_of-snoc :
    (start : ℕ) (done : List (List Entry)) (b : List Entry)
    → end_of start (done ++ b ∷ []) ≡ end_of start done + length (encode_all b)
end_of-snoc start [] b = refl
end_of-snoc start (c ∷ done) b = end_of-snoc (start + length (encode_all c)) done b

pub concat-snoc :
    (done : List (List Entry)) (b : List Entry) → concat (done ++ b ∷ []) ≡ concat done ++ b
concat-snoc [] b = append-nil b
concat-snoc (c ∷ done) b =
    ap (λ (l : List Entry). c ++ l) (concat-snoc done b) ∙ sym (append_assoc c (concat done) b)

All-snoc :
    (done : List (List Entry)) (b : List Entry)
    → All (λ (block : List Entry). block ≢ []) done
    → b ≢ []
    → All (λ (block : List Entry). block ≢ []) (done ++ b ∷ [])
All-snoc [] b h hb = (hb, tt)
All-snoc (c ∷ done) b h hb = (h.0, All-snoc done b h.1 hb)

first_of-snoc :
    (o : List Entry) (e : Entry)
    → (o ≢ [] → first_of o ≢ [])
    → (if str_eq (first_of o) [] then e.key else first_of o) ≡ first_of (o ++ e ∷ [])
first_of-snoc [] e h = unfold cmp in refl
first_of-snoc (x ∷ o) e h = ground (arith, str_eq_iff x.key [], h (λ p. cc p))

pub add_entry-IsWriting :
    (done : List (List Entry)) (o : List Entry) (b : Blocks) (e : Entry)
    → All (λ (x : Entry). x.key ≢ []) o
    → IsWriting done o b
    → IsWriting done (o ++ e ∷ []) (add_entry b e)
unfolding add_entry first_key
add_entry-IsWriting done o b e keyed w = record {
  index = w.index;
  file = w.file;
  start = w.start;
  buf = rw (w.buf, encode_all-append o (e ∷ []), append-nil (encode e));
  first = rw w.first (first_of-snoc o e (nonempty o keyed));
  long =
      rw (w.long, encode_all-append o (e ∷ []))
        (omega (arith, length-append (encode_all o) (encode e ++ []), length-append (encode e) []));
  offset =
      rw (w.offset, encode_all-append o (e ∷ []))
        (omega (arith, length-append (encode_all o) (encode e ++ []), length-append (encode e) []));
  filled = w.filled;
}
  where
    nonempty : (o : List Entry) → All (λ (x : Entry). x.key ≢ []) o → o ≢ [] → first_of o ≢ []
    nonempty [] k n = absurd (n refl)
    nonempty (x ∷ o) k n = k.0

pub close_block-IsWriting :
    (done : List (List Entry)) (o : List Entry) (b : Blocks)
    → o ≢ []
    → IsWriting done o b
    → IsWriting (done ++ o ∷ []) [] (start_block (close_block b))
unfolding close_block start_block
close_block-IsWriting done o b filled w = record {
  index = rw (index_of-snoc 0 done o, w.index, w.first, w.start);
  file = rw (concat-snoc done o, encode_all-append (concat done) o, w.file, w.buf);
  start = w.offset ∙ sym (end_of-snoc 0 done o);
  buf = refl;
  first = refl;
  long = refl;
  offset = w.offset ∙ sym (end_of-snoc 0 done o) ∙ omega arith;
  filled = All-snoc done o w.filled filled;
}
