-- ===== src/Sstable/Compaction/Sorting.antt =====
-- The entries that a compaction writes: each key of the map once, in order, with its value.
use golang_db.Base.{
  ◌≡◌, refl, ◌∙◌, Option, none, some, true, false, Bool-cases, inl, inr, List, [], ◌∷◌, arith, All,
  if◌then◌else◌,
}
use golang_db.Base.Bytes.{Bytes, str_eq, str_lt, cmp-swap, cmp_trans, str_eq_iff}
use golang_db.Base.Dict
use golang_db.Base.Dict.{Dict}
use golang_db.Memtable.{Entry, less}
use golang_db.Btree.{SortedBy}
use golang_db.Sstable.Blocks.Decoded.{value_in}
use golang_db.Sstable.Compaction.{
  insert_key, sort_strings, keys, sorted_keys, compacted_entries, value_or_empty,
}

-- Go's maps have each key once.
abbrev pub HasDistinctKeys : Dict Bytes → Type 0
HasDistinctKeys [] = Unit {0}
HasDistinctKeys ((k, v) ∷ m) = (Dict.lookup k m ≡ none) × HasDistinctKeys m

lookup-put_absent :
    (j k : Bytes) (v : Bytes) (m : Dict Bytes)
    → str_eq k j ≡ false
    → Dict.lookup j m ≡ none
    → Dict.lookup j (Dict.put k v m) ≡ none
lookup-put_absent j k v m d h = ground (arith, Dict.lookup-put j k v m)

pub put-HasDistinctKeys :
    (k v : Bytes) (m : Dict Bytes) → HasDistinctKeys m → HasDistinctKeys (Dict.put k v m)
unfolding Dict.put
put-HasDistinctKeys k v [] h = (unfold Dict.lookup in refl, tt)
put-HasDistinctKeys k v ((j, w) ∷ m) (hj, hm) = elim (Bool-cases (str_eq j k)) [
  | inl same ↦ let e : j ≡ k = (str_eq_iff j k).0 same in rw same (rw e at hj, hm)
  | inr other ↦
      rw other
        (lookup-put_absent j k v m (ground (arith, cmp-swap j k)) hj, put-HasDistinctKeys k v m hm)
]

abbrev IsAscending : List Bytes → Type 0
IsAscending [] = Unit {0}
IsAscending (k ∷ ks) = All (λ (j : Bytes). str_lt k j ≡ true) ks × IsAscending ks

abbrev IsMissing : Bytes → List Bytes → Type 0
IsMissing k ks = All (λ (j : Bytes). str_eq j k ≡ false) ks

weaken : (P Q : Bytes → Type 0) (ks : List Bytes) → ((k : Bytes) → P k → Q k) → All P ks → All Q ks
weaken P Q [] f h = tt
weaken P Q (k ∷ ks) f h = (f k h.0, weaken P Q ks f h.1)

All-insert_key :
    (P : Bytes → Type 0) (k : Bytes) (ks : List Bytes) → P k → All P ks → All P (insert_key k ks)
unfolding insert_key
All-insert_key P k [] hk h = (hk, tt)
All-insert_key P k (j ∷ ks) hk h = ground (arith, All-insert_key P k ks hk h.1)

insert_key-IsAscending :
    (k : Bytes) (ks : List Bytes) → IsMissing k ks → IsAscending ks → IsAscending (insert_key k ks)
unfolding insert_key
insert_key-IsAscending k [] n s = (tt, tt)
insert_key-IsAscending k (j ∷ ks) n s = elim (Bool-cases (str_lt k j)) [
  | inl lt ↦ rw lt (
    (
      lt,
      weaken (λ i. str_lt j i ≡ true) (λ i. str_lt k i ≡ true) ks
          (λ i h. ground (arith, cmp_trans k j i)) s.0,
    ),
    s,
  )
  | inr ge ↦ rw ge (
    All-insert_key (λ i. str_lt j i ≡ true) k ks (ground (arith, n.0, cmp-swap k j)) s.0,
    insert_key-IsAscending k ks n.1 s.1,
  )
]

IsMissing-keys : (k : Bytes) (m : Dict Bytes) → Dict.lookup k m ≡ none → IsMissing k (keys m)
unfolding keys Dict.lookup
IsMissing-keys k [] h = tt
IsMissing-keys k ((j, w) ∷ m) h = elim (Bool-cases (str_eq j k)) [
  | inl same ↦ cc (rw same at h)
  | inr other ↦ (other, IsMissing-keys k m (rw other at h))
]

IsMissing-sorted : (k : Bytes) (ks : List Bytes) → IsMissing k ks → IsMissing k (sort_strings ks)
unfolding sort_strings
IsMissing-sorted k [] h = tt
IsMissing-sorted k (j ∷ ks) h =
    All-insert_key (λ i. str_eq i k ≡ false) j (sort_strings ks) h.0 (IsMissing-sorted k ks h.1)

sorted_keys-IsAscending : (m : Dict Bytes) → HasDistinctKeys m → IsAscending (sorted_keys m)
unfolding sorted_keys sort_strings keys
sorted_keys-IsAscending [] h = tt
sorted_keys-IsAscending ((k, v) ∷ m) h =
    insert_key-IsAscending k (sort_strings (keys m))
      (IsMissing-sorted k (keys m) (IsMissing-keys k m h.0)) (sorted_keys-IsAscending m h.1)

-- The entries are sorted like their keys.
compacted-above :
    (m : Dict Bytes) (k : Bytes) (v : Bytes) (ks : List Bytes)
    → All (λ (j : Bytes). str_lt k j ≡ true) ks
    → All (λ (e : Entry). less (record { key = k; value = v }) e ≡ true) (compacted_entries m ks)
unfolding compacted_entries
compacted-above m k v [] h = tt
compacted-above m k v (j ∷ ks) h = (h.0, compacted-above m k v ks h.1)

compacted_entries-SortedBy :
    (m : Dict Bytes) (ks : List Bytes) → IsAscending ks → SortedBy less (compacted_entries m ks)
unfolding compacted_entries
compacted_entries-SortedBy m [] h = tt
compacted_entries-SortedBy m (k ∷ ks) h = (
  compacted-above m k (value_or_empty (Dict.lookup k m)) ks h.0,
  compacted_entries-SortedBy m ks h.1,
)

-- Among the keys, the entry has the value of the map; elsewhere there is none.
abbrev has_key : Bytes → List Bytes → Option Bytes → Option Bytes
has_key k [] v = none
has_key k (j ∷ ks) v = if str_eq j k then v else has_key k ks v

value_in-compacted :
    (m : Dict Bytes) (k : Bytes) (ks : List Bytes)
    → value_in k (compacted_entries m ks) ≡ has_key k ks (some (value_or_empty (Dict.lookup k m)))
unfolding compacted_entries
value_in-compacted m k [] = refl
value_in-compacted m k (j ∷ ks) = elim (Bool-cases (str_eq j k)) [
  | inl same ↦ rw (same, (str_eq_iff j k).0 same)
  | inr other ↦ rw other (value_in-compacted m k ks)
]

has_key-insert_key :
    (k j : Bytes) (ks : List Bytes) (v : Option Bytes)
    → has_key k (insert_key j ks) v ≡ (if str_eq j k then v else has_key k ks v)
unfolding insert_key
has_key-insert_key k j [] v = refl
has_key-insert_key k j (i ∷ ks) v = ground (arith, has_key-insert_key k j ks v)

abbrev given : Option Bytes → Option Bytes → Option Bytes
given none v = none
given (some w) v = v

has_key-sorted :
    (k : Bytes) (m : Dict Bytes) (v : Option Bytes)
    → has_key k (sorted_keys m) v ≡ given (Dict.lookup k m) v
unfolding sorted_keys sort_strings keys Dict.lookup
has_key-sorted k [] v = refl
has_key-sorted k ((j, w) ∷ m) v =
    ground (arith, has_key-insert_key k j (sort_strings (keys m)) v, has_key-sorted k m v)

given_lem : (o : Option Bytes) → given o (some (value_or_empty o)) ≡ o
unfolding value_or_empty
given_lem none = refl
given_lem (some v) = refl

-- Of a map that has each key once, the entries that a compaction writes are sorted by their keys, each
-- key once; they have the value of the map for each key of the map, and no other key.
pub compacted_entries_lem :
    (m : Dict Bytes)
    → HasDistinctKeys m
    → SortedBy less (compacted_entries m (sorted_keys m))
      × ((key : Bytes) → value_in key (compacted_entries m (sorted_keys m)) ≡ Dict.lookup key m)
compacted_entries_lem m h = (
  compacted_entries-SortedBy m (sorted_keys m) (sorted_keys-IsAscending m h),
  λ key.
      value_in-compacted m key (sorted_keys m)
      ∙ has_key-sorted key m (some (value_or_empty (Dict.lookup key m)))
      ∙ given_lem (Dict.lookup key m),
)
