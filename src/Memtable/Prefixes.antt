-- ===== src/Memtable/Prefixes.antt =====
-- The keys with a prefix are neighbours in a sorted list: PrefixScan of memtable/memtable.go.
use golang_db.Base.{ap}
use mathlib.Core.Path.{subst}
use Prim.Native.Nat.{Ordering}
use golang_db.Base.{◌≡◌, refl, true, false, Option, none, some, List, [], ◌∷◌, arith, All}
use golang_db.Base.{if◌then◌else◌, Bool-cases, inl, inr, ◌∙◌}
use golang_db.Base.Bytes.{Bytes, str_lt, cmp, cmp-swap, cmp-eq, cmp_trans, has_prefix}
use golang_db.Base.Dict
use golang_db.Base.Dict.{Dict, lookup-put}
use golang_db.Btree.{SortedBy, find, drop_below}
use golang_db.Memtable.{Entry, less, collect}
use golang_db.Memtable.Order.{value_at, probe, find-below, All-weaken, drop_below-SortedBy}

-- A string is not below its prefix.
pub has_prefix-le : (k p : Bytes) → has_prefix k p ≡ true → str_lt k p ≡ false
unfolding has_prefix cmp
has_prefix-le [] [] h = refl
has_prefix-le (x ∷ k) [] h = refl
has_prefix-le [] (y ∷ p) h = cc
has_prefix-le (x ∷ k) (y ∷ p) h = ground (arith, has_prefix-le k p)

-- Once the strings from `p` on have lost the prefix, none behind has it.
pub no_prefix_above :
    (k j p : Bytes)
    → str_lt k p ≡ false
    → has_prefix k p ≡ false
    → str_lt k j ≡ true
    → has_prefix j p ≡ false
unfolding has_prefix cmp
no_prefix_above k j [] a b c = ground arith
no_prefix_above [] j (y ∷ p) a b c = cc
no_prefix_above (x ∷ k) [] (y ∷ p) a b c = cc
no_prefix_above (x ∷ k) (z ∷ j) (y ∷ p) a b c = ground (arith, no_prefix_above k j p)

find-no_prefix :
    (j p : Bytes) (l : List Entry)
    → has_prefix j p ≡ true
    → All (λ e. has_prefix e.key p ≡ false) l
    → value_at j l ≡ none
unfolding find
find-no_prefix j p [] hj h = refl
find-no_prefix j p (e ∷ l) hj (no_prefix, rest) =
    ground (arith, cmp-swap j e.key, cmp-eq j e.key, differs, find-no_prefix j p l hj rest)
  where
    differs : cmp j e.key ≡ Ordering.eq → has_prefix j p ≡ has_prefix e.key p
    differs c = ap (λ (k : Bytes). has_prefix k p) (cmp-eq j e.key c)

pub value_at-drop_below :
    (j p : Bytes) (l : List Entry)
    → str_lt j p ≡ false
    → value_at j (drop_below less (probe p) l) ≡ value_at j l
unfolding find drop_below
value_at-drop_below j p [] h = refl
value_at-drop_below j p (e ∷ l) h =
    ground (arith, cmp-swap e.key j, cmp-eq e.key j, value_at-drop_below j p l h)

-- All of a sorted list from `p` on are at or above `p`.
drop_below-above :
    (p : Bytes) (l : List Entry)
    → SortedBy less l
    → All (λ e. str_lt e.key p ≡ false) (drop_below less (probe p) l)
unfolding drop_below
drop_below-above p [] h = tt
drop_below-above p (e ∷ l) (above, sorted) = elim (Bool-cases (str_lt e.key p)) [
  | inl b ↦ rw b (drop_below-above p l sorted)
  | inr b ↦ rw b (
    b,
    All-weaken l (λ y k. ground (arith, cmp_trans e.key y.key p, cmp-eq e.key p, cmp-swap e.key p))
        above,
  )
]

same_key-find :
    (j : Bytes) (e : Entry) (l : List Entry)
    → cmp e.key j ≡ Ordering.eq
    → All (λ y. less e y ≡ true) l
    → find less (probe j) l ≡ none
same_key-find j e l h above =
    find-below (probe j) l (
      All-weaken l (λ y k. subst (λ (i : Bytes). str_lt i y.key ≡ true) (cmp-eq e.key j h) k) above)

abbrev or_else : Option Bytes → Option Bytes → Option Bytes
or_else none other = other
or_else (some v) other = some v

-- What the scan adds to the map: each entry with the prefix.
collect_lem :
    (j p : Bytes) (acc : Dict Bytes) (l : List Entry)
    → SortedBy less l
    → All (λ e. str_lt e.key p ≡ false) l
    → has_prefix j p ≡ true
    → Dict.lookup j (collect p acc l) ≡ or_else (value_at j l) (Dict.lookup j acc)
unfolding collect
collect_lem j p acc [] s h hj = unfold find in refl
collect_lem j p acc (e ∷ l) (above, sorted) (ge, rest) hj = elim (Bool-cases (has_prefix e.key p)) [
  | inl b ↦ rw b (
      collect_lem j p (Dict.put e.key e.value acc) l sorted rest hj
      ∙ (unfold find in
          ground (arith, lookup-put j e.key e.value acc, cmp-swap e.key j, same_key-find j e l)))
  | inr b ↦ rw (
    b,
    find-no_prefix j p (e ∷ l) hj
        (b, All-weaken l (λ y k. no_prefix_above e.key y.key p ge b k) above),
  )
]

-- A key without the prefix is not added.
collect-no_prefix :
    (j p : Bytes) (acc : Dict Bytes) (l : List Entry)
    → has_prefix j p ≡ false
    → Dict.lookup j (collect p acc l) ≡ Dict.lookup j acc
unfolding collect
collect-no_prefix j p acc [] hj = refl
collect-no_prefix j p acc (e ∷ l) hj = ground (
  arith,
  collect-no_prefix j p (Dict.put e.key e.value acc) l hj,
  lookup-put j e.key e.value acc,
  cmp-eq e.key j,
  λ (c : cmp e.key j ≡ Ordering.eq). ap (λ (k : Bytes). has_prefix k p) (cmp-eq e.key j c),
)

-- Scanning from the prefix on: the map has the value of each key with the prefix, and no other key.
pub collect-drop_below :
    (j p : Bytes) (l : List Entry)
    → SortedBy less l
    → Dict.lookup j (collect p [] (drop_below less (probe p) l))
      ≡ (if has_prefix j p then value_at j l else none)
unfolding Dict.lookup
collect-drop_below j p l sorted = elim (Bool-cases (has_prefix j p)) [
  | inl b ↦ rw b (
      collect_lem j p [] (drop_below less (probe p) l) (drop_below-SortedBy (probe p) l sorted)
        (drop_below-above p l sorted) b
      ∙ ground (arith, value_at-drop_below j p l (has_prefix-le j p b)))
  | inr b ↦ rw b (collect-no_prefix j p [] (drop_below less (probe p) l) b)
]
