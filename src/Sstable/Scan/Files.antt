-- ===== src/Sstable/Scan/Files.antt =====
-- What PrefixScan of sstable/sstable.go finds in files that hold sorted entries.
use mathlib.Core.Path.{subst}
use golang_db.Base.{
  ℕ, ◌+◌, ◌-◌, ◌≡◌, refl, sym, ap, ◌∙◌, none, some, true, false, Bool-cases, inl, inr, List, [],
  ◌∷◌, ◌++◌, arith, All, ge→ltb, if◌then◌else◌, length, get_elem?, length-append, append_assoc,
  append-nil, drop-append, take-append, Result, ok,
}
use golang_db.Base.Bytes.{Bytes, IsU32, str_lt, str_le, cmp, has_prefix}
use golang_db.Base.Dict
use golang_db.Base.Dict.{Dict}
use golang_db.Btree.{SortedBy}
use golang_db.Memtable.{Entry, less}
use golang_db.Memtable.Prefixes.{no_prefix_above}
use golang_db.Sstable.Blocks.{IndexEntry}
use golang_db.Sstable.Blocks.Decoded.{encode_all, value_in}
use golang_db.Sstable.Blocks.Written.{first_of, index_of, concat, encode_all-append}
use golang_db.Sstable.Table.{SsTable, read_at_eof}
use golang_db.Sstable.Table.Located.{Located}
use golang_db.Sstable.Table.Lookup.{value_in-append, sorted_right, length-le-encode_all}
use golang_db.Sstable.Table.Stored.{IsStored, at-some}
use golang_db.Sstable.Scan.{sequentially_scan_table_and_update_map, scan_from}
use golang_db.Sstable.Scan.Entries.{
  scan_list, scan_entries_lem, or_else, or_else-none, lookup-scan_list, lookup-scan_list_other,
  All-weaken,
}

read_exact :
    (front body tail : Bytes) (n : ℕ)
    → n ≡ length body
    → read_at_eof (front ++ (body ++ tail)) n (length front) ≡ body
unfolding read_at_eof
read_exact front body tail n hn =
    let full : n - length body ≡ 0 = omega arith in
    rw (drop-append (length front) front (body ++ tail) refl, take-append n body tail hn, full)
      (append-nil body)

-- What is at or below the prefix is at or below each key with the prefix.
pub le-has_prefix : (k p j : Bytes) → str_le k p ≡ true → has_prefix j p ≡ true → str_le k j ≡ true
unfolding has_prefix cmp
le-has_prefix [] [] [] h g = refl
le-has_prefix [] [] (z ∷ j) h g = refl
le-has_prefix [] (y ∷ p) [] h g = refl
le-has_prefix [] (y ∷ p) (z ∷ j) h g = refl
le-has_prefix (x ∷ k) [] j h g = cc
le-has_prefix (x ∷ k) (y ∷ p) [] h g = cc
le-has_prefix (x ∷ k) (y ∷ p) (z ∷ j) h g = ground (arith, le-has_prefix k p j)

-- Sorted entries that begin above the prefix, and without it, have no key with it.
pub lacking :
    (p : Bytes) (es : List Entry)
    → SortedBy less es
    → str_lt (first_of es) p ≡ false
    → has_prefix (first_of es) p ≡ false
    → All (λ (e : Entry). has_prefix e.key p ≡ false) es
lacking p [] s ge h = tt
lacking p (e ∷ es) s ge h = (
  h,
  All-weaken (λ f. less e f ≡ true) (λ f. has_prefix f.key p ≡ false) es
      (λ f above. no_prefix_above e.key f.key p ge h above) s.0,
)

pub none_in : (j : Bytes) (es : List Entry) → length es ≡ 0 → value_in j es ≡ none
none_in j [] h = refl
none_in j (e ∷ es) h = absurd (omega arith)

-- The map behind the scan of a file: a key with the prefix that the map has not takes the file's value.
abbrev pub IsScanned : Bytes → Dict Bytes → List Entry → Result (Dict Bytes) → Type 0
IsScanned p m entries r =
    (m' : Dict Bytes) × (r ≡ ok m')
    × ((j : Bytes)
        → Dict.lookup j m' ≡ (
            if has_prefix j p
            then or_else (Dict.lookup j m) (value_in j entries)
            else Dict.lookup j m))

-- A scan that leaves the map as it is, where the file has no key with the prefix.
pub nothing :
    (p : Bytes) (m : Dict Bytes) (entries : List Entry)
    → ((j : Bytes) → has_prefix j p ≡ true → value_in j entries ≡ none)
    → IsScanned p m entries (ok m)
nothing p m entries h = (
  m,
  refl,
  λ j. elim (Bool-cases (has_prefix j p)) [
    | inl b ↦ rw (b, h j b) (sym (or_else-none (Dict.lookup j m)))
    | inr b ↦ rw b
  ],
)

module _ (st : SsTable) (n : ℕ) (entries : List Entry) (s : IsStored st n entries) (p : Bytes)
    (m : Dict Bytes) where
  pub sorted_blocks : SortedBy less (concat s.blocks)
  sorted_blocks = subst (λ (es : List Entry). SortedBy less es) (sym s.cut) s.sorted

  scan_block :
      (b : ℕ) (ie : IndexEntry) (l : Located 0 s.blocks b ie)
      → sequentially_scan_table_and_update_map s.file p ie.offset (length (encode_all entries)) m
        ≡ ok (scan_list p (l.block ++ l.after) m)
  unfolding sequentially_scan_table_and_update_map
  scan_block b ie l =
      let body = encode_all (l.block ++ l.after) in
      let start : ie.offset ≡ length (encode_all l.before) = omega (arith, l.offset) in
      let split : encode_all entries ≡ encode_all l.before ++ body =
        ap encode_all (sym s.cut ∙ l.whole) ∙ encode_all-append l.before (l.block ++ l.after) in
      let shape : s.file.contents ≡ encode_all l.before ++ (body ++ s.next_byte ∷ s.tail) =
        s.contents
        ∙ ap (λ (t : Bytes). t ++ s.next_byte ∷ s.tail) split
        ∙ append_assoc (encode_all l.before) body (s.next_byte ∷ s.tail) in
      let long : length (encode_all entries) ≡ length (encode_all l.before) + length body =
        omega (arith, ap length split, length-append (encode_all l.before) body) in
      let small : IsU32 (length body) = omega (
        arith,
        s.small,
        ap length shape,
        length-append (encode_all l.before) (body ++ s.next_byte ∷ s.tail),
        length-append body (s.next_byte ∷ s.tail),
      ) in
      rw
        (
          start,
          ge→ltb (length (encode_all entries)) (length (encode_all l.before)) (omega (arith, long)),
          shape,
          read_exact (encode_all l.before) body (s.next_byte ∷ s.tail)
              (length (encode_all entries) - length (encode_all l.before)) (omega (arith, long)),
        )
        (scan_entries_lem body (l.block ++ l.after) (length body) 0 p m small refl
          (length-le-encode_all (l.block ++ l.after)) (omega arith))

  pub from_block :
      (b : ℕ) (ie : IndexEntry) (l : Located 0 s.blocks b ie)
      → get_elem? (index_of 0 s.blocks) b ≡ some ie
      → ((j : Bytes) → has_prefix j p ≡ true → value_in j l.before ≡ none)
      → IsScanned p m entries (scan_from st n p s.file (index_of 0 s.blocks) m (some b))
  unfolding scan_from
  from_block b ie l here skipped = (
    scan_list p (l.block ++ l.after) m,
    rw (s.at_offset, at-some (index_of 0 s.blocks) b ie here) (scan_block b ie l),
    λ j. elim (Bool-cases (has_prefix j p)) [
      | inl h ↦ rw h (
          lookup-scan_list j p (l.block ++ l.after) m sorted h
          ∙ ap (or_else (Dict.lookup j m)) (
              sym (value_in-append j l.before (l.block ++ l.after) (skipped j h))
              ∙ ap (value_in j) (sym l.whole ∙ s.cut)))
      | inr h ↦ rw h (lookup-scan_list_other j p (l.block ++ l.after) m h)
    ],
  )
    where
      sorted : SortedBy less (l.block ++ l.after)
      sorted =
          sorted_right l.before (l.block ++ l.after)
            (subst (λ (es : List Entry). SortedBy less es) l.whole sorted_blocks)
