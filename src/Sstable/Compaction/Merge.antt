-- ===== src/Sstable/Compaction/Merge.antt =====
-- The map of a compaction has, for each key, the value of the newest file with that key.
use golang_db.Sstable.Index.RoundTrip.{size}
use golang_db.Base.{
  ◌≡◌, refl, ap, ◌∙◌, Option, none, some, Bool-cases, inl, inr, List, [], ◌∷◌, arith, All, length,
  ok,
}
use golang_db.Base.Bytes.{Bytes, IsU32, str_eq, str_eq_iff}
use golang_db.Base.Dict
use golang_db.Base.Dict.{Dict, lookup-put}
use golang_db.Memtable.{Entry, less}
use golang_db.Btree.{SortedBy}
use golang_db.Sstable.Blocks.{IndexEntry}
use golang_db.Sstable.Blocks.Decoded.{encode_all, value_in, put_all, put_entries_lem}
use golang_db.Sstable.Index.RoundTrip.{whole_file, read_at_lem, get_index_offset_lem, shape}
use golang_db.Sstable.Table.{SsFile}
use golang_db.Sstable.Table.Lookup.{value_in-above, length-le-encode_all}
use golang_db.Sstable.Compaction.{add_file, add_files, build_compacted_map}

abbrev pub or_else : Option Bytes → Option Bytes → Option Bytes
or_else none other = other
or_else (some v) other = some v

-- The value of a key in files of entries, the oldest first.
abbrev pub newest : Bytes → List (List Entry) → Option Bytes
newest key [] = none
newest key (es ∷ rest) = or_else (newest key rest) (value_in key es)

pub lookup-put_all :
    (key : Bytes) (es : List Entry) (m : Dict Bytes)
    → SortedBy less es
    → Dict.lookup key (put_all es m) ≡ or_else (value_in key es) (Dict.lookup key m)
lookup-put_all key [] m s = refl
lookup-put_all key (e ∷ es) m s = elim (Bool-cases (str_eq e.key key)) [
  | inl same ↦
      let e' : e.key ≡ key = (str_eq_iff e.key key).0 same in
      lookup-put_all key es (Dict.put e.key e.value m) s.1
      ∙ rw (same, lookup-put key e.key e.value m, same, value_in-above key es (rw e' at s.0))
  | inr other ↦
      lookup-put_all key es (Dict.put e.key e.value m) s.1
      ∙ rw (other, lookup-put key e.key e.value m, other)
]

-- A file as the writer leaves it, where it was new and has fewer than 2 ^ 32 bytes.
pub record IsWritten (file : SsFile) (entries : List Entry) : Type 0 where
  pub index : List IndexEntry
  pub contents : file.contents ≡ whole_file (encode_all entries) index
  pub small : IsU32 (length file.contents)
  pub words : All (λ (ib : IndexEntry). IsU32 ib.offset) index
  pub sorted : SortedBy less entries

add_file_lem :
    (m : Dict Bytes) (file : SsFile) (entries : List Entry)
    → IsWritten file entries
    → add_file m file ≡ ok (put_all entries m)
unfolding add_file
add_file_lem m file entries w =
    rw
      (
        w.contents,
        get_index_offset_lem (encode_all entries) w.index small' w.words,
        read_at_lem (whole_file (encode_all entries) w.index) [] (encode_all entries) _
            (length (encode_all entries)) 0 (shape (encode_all entries) w.index small' w.words) refl
            refl,
      )
      (put_entries_lem (encode_all entries) entries (length (encode_all entries)) 0 m
        (omega (arith, size (encode_all entries) w.index small' w.words, small')) refl
        (length-le-encode_all entries) (omega arith))
  where
    small' : IsU32 (length (whole_file (encode_all entries) w.index))
    small' = rw w.contents at w.small

abbrev pub Forall₂Written : List SsFile → List (List Entry) → Type 0
Forall₂Written [] [] = Unit {0}
Forall₂Written [] (e ∷ es) = ⊥
Forall₂Written (f ∷ fs) [] = ⊥
Forall₂Written (f ∷ fs) (e ∷ es) = IsWritten f e × Forall₂Written fs es

abbrev pub merged : List (List Entry) → Dict Bytes → Dict Bytes
merged [] m = m
merged (es ∷ rest) m = merged rest (put_all es m)

add_files_lem :
    (files : List SsFile) (ess : List (List Entry)) (m : Dict Bytes)
    → Forall₂Written files ess
    → add_files m files ≡ ok (merged ess m)
unfolding add_files
add_files_lem [] [] m h = refl
add_files_lem [] (e ∷ es) m h = absurd h
add_files_lem (f ∷ fs) [] m h = absurd h
add_files_lem (f ∷ fs) (es ∷ ess) m h =
    rw (add_file_lem m f es h.0) (add_files_lem fs ess (put_all es m) h.1)

or_else_assoc : (a b c : Option Bytes) → or_else a (or_else b c) ≡ or_else (or_else a b) c
or_else_assoc none b c = refl
or_else_assoc (some v) b c = refl

lookup-merged :
    (key : Bytes) (files : List SsFile) (ess : List (List Entry)) (m : Dict Bytes)
    → Forall₂Written files ess
    → Dict.lookup key (merged ess m) ≡ or_else (newest key ess) (Dict.lookup key m)
lookup-merged key [] [] m h = refl
lookup-merged key [] (e ∷ es) m h = absurd h
lookup-merged key (f ∷ fs) [] m h = absurd h
lookup-merged key (f ∷ fs) (es ∷ ess) m h =
    lookup-merged key fs ess (put_all es m) h.1
    ∙ ap (or_else (newest key ess)) (lookup-put_all key es m h.0.sorted)
    ∙ or_else_assoc (newest key ess) (value_in key es) (Dict.lookup key m)

right_none : (o : Option Bytes) → or_else o none ≡ o
right_none none = refl
right_none (some v) = refl

-- From files, the oldest first, each of which has fewer than 2 ^ 32 bytes and is the bytes of sorted
-- entries from its first byte on, then an index block whose offsets are below 2 ^ 32, and a footer with the
-- length of the entries: the map of a compaction is built without an error, and has for each key the value
-- of the newest file with that key, and no other key.
pub build_compacted_map-newest :
    (files : List SsFile) (ess : List (List Entry))
    → Forall₂Written files ess
    → (m : Dict Bytes) × (build_compacted_map files ≡ ok m)
      × ((key : Bytes) → Dict.lookup key m ≡ newest key ess)
unfolding build_compacted_map
build_compacted_map-newest files ess h = (
  merged ess [],
  add_files_lem files ess [] h,
  λ key. lookup-merged key files ess [] h ∙ (unfold Dict.lookup in right_none (newest key ess)),
)
