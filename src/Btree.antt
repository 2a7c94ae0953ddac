-- ===== src/Btree.antt =====
-- The ordered set of github.com/google/btree, which memtable/memtable.go imports. It is not part of
-- the repository: the module states, over the list of its items in order, what the package documents
-- of the calls that the memtable makes. The branching degree that New takes does not show in these.
use golang_db.Base.{◌≡◌, Bool, true, Option, none, some, List, [], ◌∷◌, if◌then◌else◌, All}

module _ {Item : Type 0} (less : Item → Item → Bool) where
  -- Each item is less than all behind it.
  abbrev pub SortedBy : List Item → Type 0
  SortedBy [] = Unit {0}
  SortedBy (x ∷ xs) = All (λ y. less x y ≡ true) xs × SortedBy xs

  -- The item equal to `x`: neither is less than the other.
  unfoldable pub find : Item → List Item → Option Item
  find x [] = none
  find x (y ∷ ys) = if less x y then find x ys else if less y x then find x ys else some y

  -- `x` in its place, instead of the item equal to it.
  unfoldable pub insert : Item → List Item → List Item
  insert x [] = x ∷ []
  insert x (y ∷ ys) =
      let rest = y ∷ insert x ys in
      if less y x then rest else if less x y then x ∷ y ∷ ys else x ∷ ys

  -- The items that are not less than `x`.
  unfoldable pub drop_below : Item → List Item → List Item
  drop_below x [] = []
  drop_below x (y ∷ ys) = let rest = drop_below x ys in if less y x then rest else y ∷ ys

pub record BTree (Item : Type 0) (less : Item → Item → Bool) : Type 1 where
  pub Tree : Type 0
  -- New, and Clear, which removes all items
  pub new : Tree
  pub clear : Tree → Tree
  -- Get: the item equal to the key, or nil
  pub get : Tree → Item → Option Item
  -- ReplaceOrInsert: the new tree, and the item that was replaced, or nil
  pub replace_or_insert : Tree → Item → Tree × Option Item
  -- Ascend, and AscendGreaterOrEqual: the items in the order in which the callback sees them
  pub ascend : Tree → List Item
  pub ascend_ge : Tree → Item → List Item
  pub ascend-new : ascend new ≡ []
  pub ascend-clear : (t : Tree) → ascend (clear t) ≡ []
  pub ascend-SortedBy : (t : Tree) → SortedBy less (ascend t)
  pub get_lem : (t : Tree) (x : Item) → get t x ≡ find less x (ascend t)
  pub replaced_lem : (t : Tree) (x : Item) → (replace_or_insert t x).1 ≡ find less x (ascend t)
  pub ascend-insert :
      (t : Tree) (x : Item) → ascend (replace_or_insert t x).0 ≡ insert less x (ascend t)
  pub ascend_ge_lem : (t : Tree) (x : Item) → ascend_ge t x ≡ drop_below less x (ascend t)
