-- ===== src/Memtable.antt =====
-- memtable/memtable.go: an ordered tree of entries with the number of bytes that it holds.
pub mod Order
pub mod Prefixes
pub mod Laws
pub mod Model
mod Tests
use golang_db.Base.{
  ℕ, ◌+◌, ◌-◌, Bool, Option, none, some, List, [], ◌∷◌, leb, if◌then◌else◌, length,
}
use golang_db.Base.Bytes.{Bytes, str_lt, has_prefix}
use golang_db.Base.Dict
use golang_db.Base.Dict.{Dict}
use golang_db.Btree.{BTree}

pub record Entry : Type 0 where
  pub key : Bytes
  pub value : Bytes

-- (e *Entry) Less
abbrev pub less : Entry → Entry → Bool
less e than = str_lt e.key than.key

abbrev pub EntryTree : Type 1
EntryTree = BTree Entry less

abbrev pub memtable_size_limit : ℕ
memtable_size_limit = 1000

-- PrefixScan's callback over the entries from the prefix on: it stops at the first without it.
unfoldable pub collect : Bytes → Dict Bytes → List Entry → Dict Bytes
collect prefix_key table_map [] = table_map
collect prefix_key table_map (e ∷ rest) =
    let more = collect prefix_key (Dict.put e.key e.value table_map) rest in
    if has_prefix e.key prefix_key then more else table_map

module _ (bt : EntryTree) where
  pub record Memtable : Type 0 where
    pub tree : bt.Tree
    pub size : ℕ

  unfoldable pub new_memtable : Memtable
  new_memtable = record { tree = bt.new; size = 0 }

  -- ("", false) is `none`.
  unfoldable pub get : Memtable → Bytes → Option Bytes
  get m key = elim (bt.get m.tree (record { key = key; value = [] })) [
    | none ↦ none
    | some e ↦ some e.value
  ]

  -- The sequence of calls of `fn`.
  unfoldable pub iterate : Memtable → List Entry
  iterate m = bt.ascend m.tree

  -- The size after the tree has answered with the entry that was replaced. Go's int cannot fall
  -- below zero here, as `put-IsSized` shows, so that the subtraction of ℕ is exact.
  unfoldable pub resize : ℕ → Bytes → Bytes → Option Entry → ℕ
  resize size key value none = size + (length key + length value)
  resize size key value (some old) = size + length value - length old.value

  unfoldable pub put : Memtable → Bytes → Bytes → Memtable
  unfolding resize
  put m key value =
      let (tree', old) = bt.replace_or_insert m.tree (record { key = key; value = value }) in
      record { tree = tree'; size = resize m.size key value old }

  unfoldable pub prefix_scan : Memtable → Bytes → Dict Bytes
  prefix_scan m prefix_key =
      collect prefix_key [] (bt.ascend_ge m.tree (record { key = prefix_key; value = [] }))

  unfoldable pub should_flush : Memtable → Bool
  should_flush m = leb memtable_size_limit m.size

  unfoldable pub clear : Memtable → Memtable
  clear m = record { tree = bt.clear m.tree; size = 0 }
