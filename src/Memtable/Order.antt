-- ===== src/Memtable/Order.antt =====
-- Sorted lists of entries: what insertion does to order, lookups and the total of the bytes.
use Prim.Native.Nat.{Ordering}
use golang_db.Base.{
  ℕ, ◌+◌, ◌≡◌, refl, true, false, Option, none, some, List, [], ◌∷◌, arith, length, All,
}
use golang_db.Base.{if◌then◌else◌, Bool-cases, inl, inr}
use golang_db.Base.Bytes.{Bytes, str_eq, cmp, cmp-swap, cmp-eq, cmp_trans}
use golang_db.Btree.{SortedBy, find, insert, drop_below}
use golang_db.Memtable.{Entry, less}

module _ {P Q : Entry → Type 0} where
  pub All-weaken : (l : List Entry) → ((e : Entry) → P e → Q e) → All P l → All Q l
  All-weaken [] f h = tt
  All-weaken (e ∷ l) f h = (f e h.0, All-weaken l f h.1)

All-insert :
    (P : Entry → Type 0) (x : Entry) (l : List Entry) → P x → All P l → All P (insert less x l)
unfolding insert
All-insert P x [] hx h = (hx, tt)
All-insert P x (y ∷ l) hx h = ground (arith, All-insert P x l hx h.1)

pub less-All :
    (x y : Entry) (l : List Entry)
    → less x y ≡ true
    → All (λ z. less y z ≡ true) l
    → All (λ z. less x z ≡ true) l
less-All x y l h = All-weaken l (λ z k. ground (arith, cmp_trans x.key y.key z.key))

same_key-All :
    (x y : Entry) (l : List Entry)
    → less x y ≡ false
    → less y x ≡ false
    → All (λ z. less y z ≡ true) l
    → All (λ z. less x z ≡ true) l
same_key-All x y l h k =
    All-weaken l (λ z below. ground (arith, cmp-swap x.key y.key, cmp-eq x.key y.key))

pub insert-SortedBy :
    (x : Entry) (l : List Entry) → SortedBy less l → SortedBy less (insert less x l)
unfolding insert
insert-SortedBy x [] h = (tt, tt)
insert-SortedBy x (y ∷ l) (above, sorted) = elim (Bool-cases (less y x)) [
  | inl yx ↦ rw yx (All-insert (λ z. less y z ≡ true) x l yx above, insert-SortedBy x l sorted)
  | inr yx ↦ elim (Bool-cases (less x y)) [
    | inl xy ↦ rw (yx, xy) ((xy, less-All x y l xy above), (above, sorted))
    | inr xy ↦ rw (yx, xy) (same_key-All x y l xy yx above, sorted)
  ]
]

pub drop_below-SortedBy :
    (x : Entry) (l : List Entry) → SortedBy less l → SortedBy less (drop_below less x l)
unfolding drop_below
drop_below-SortedBy x [] h = tt
drop_below-SortedBy x (y ∷ l) h = ground (arith, drop_below-SortedBy x l h.1)

-- The value under a key.
abbrev pub value_of : Option Entry → Option Bytes
value_of none = none
value_of (some e) = some e.value

abbrev pub probe : Bytes → Entry
probe key = record { key = key; value = [] }

abbrev pub value_at : Bytes → List Entry → Option Bytes
value_at j l = value_of (find less (probe j) l)

pub value_at-insert :
    (j : Bytes) (x : Entry) (l : List Entry)
    → value_at j (insert less x l) ≡ (if str_eq x.key j then some x.value else value_at j l)
unfolding find insert
value_at-insert j x [] = ground (arith, cmp-swap x.key j)
value_at-insert j x (y ∷ l) = ground (
  arith,
  cmp-swap x.key j,
  cmp-swap y.key j,
  cmp-swap x.key y.key,
  cmp-eq x.key y.key,
  cmp-eq x.key j,
  cmp-eq y.key j,
  value_at-insert j x l,
)

-- An item below all of the list is not found in it.
pub find-below : (x : Entry) (l : List Entry) → All (λ y. less x y ≡ true) l → find less x l ≡ none
unfolding find
find-below x [] h = refl
find-below x (y ∷ l) h = ground (arith, find-below x l h.1)

abbrev pub total : List Entry → ℕ
total [] = 0
total (e ∷ l) = length e.key + length e.value + total l

-- What an insertion adds to the total, and what it takes away with the entry that it replaces.
abbrev added : Entry → Option Entry → ℕ
added x none = length x.key + length x.value
added x (some old) = length x.value

abbrev removed : Option Entry → ℕ
removed none = 0
removed (some old) = length old.value

length-eq_of_cmp : (a b : Bytes) → cmp a b ≡ Ordering.eq → length a ≡ length b
length-eq_of_cmp a b h = rw (cmp-eq a b h)

pub total-insert :
    (x : Entry) (l : List Entry)
    → SortedBy less l
    → total (insert less x l) + removed (find less x l) ≡ total l + added x (find less x l)
unfolding find insert
total-insert x [] h = omega arith
total-insert x (y ∷ l) (above, sorted) = elim (Bool-cases (less x y)) [
  | inl xy ↦ ground (arith, cmp-swap x.key y.key, find-below x l (less-All x y l xy above))
  | inr xy ↦
      ground (arith, cmp-swap x.key y.key, length-eq_of_cmp x.key y.key, total-insert x l sorted)
]
