-- ===== src/Memtable/Laws.antt =====
-- What the calls of memtable/memtable.go promise, over any tree that keeps its documentation.
use golang_db.Base.{◌≡◌, none, some, [], arith, if◌then◌else◌, ap}
use golang_db.Base.Bytes.{Bytes, str_eq, has_prefix}
use golang_db.Base.Dict
use golang_db.Btree.{insert}
use golang_db.Memtable.{
  EntryTree, less, Memtable, new_memtable, get, put, iterate, prefix_scan, clear,
}
use golang_db.Memtable.Order.{value_at, probe, total, value_at-insert, total-insert}
use golang_db.Memtable.Prefixes.{collect-drop_below}

module _ (bt : EntryTree) where
  pub get-value_at : (m : Memtable bt) (k : Bytes) → get bt m k ≡ value_at k (iterate bt m)
  unfolding get iterate
  get-value_at m k = rw (bt.get_lem m.tree (probe k), get) (ground arith)

  pub iterate-put :
      (m : Memtable bt) (k v : Bytes)
      → iterate bt (put bt m k v) ≡ insert less (record { key = k; value = v }) (iterate bt m)
  unfolding put iterate
  iterate-put m k v = bt.ascend-insert m.tree (record { key = k; value = v })

  -- After Put, Get returns the new value under that key, and under any other what it returned before.
  pub get-put :
      (m : Memtable bt) (k v j : Bytes)
      → get bt (put bt m k v) j ≡ (if str_eq k j then some v else get bt m j)
  get-put m k v j =
      rw (get-value_at (put bt m k v) j, get-value_at m j, iterate-put m k v)
        (value_at-insert j (record { key = k; value = v }) (iterate bt m))

  -- `size` counts the bytes of the stored keys and values.
  abbrev pub IsSized : Memtable bt → Type 0
  IsSized m = m.size ≡ total (iterate bt m)

  -- Put keeps `size` equal to the bytes in the stored keys and values, also where it replaces a value.
  pub put-IsSized : (m : Memtable bt) (k v : Bytes) → IsSized m → IsSized (put bt m k v)
  unfolding put iterate
  put-IsSized m k v h = ground (
    arith,
    bt.replaced_lem m.tree (record { key = k; value = v }),
    ap total (bt.ascend-insert m.tree (record { key = k; value = v })),
    total-insert (record { key = k; value = v }) (bt.ascend m.tree) (bt.ascend-SortedBy m.tree),
  )

  -- PrefixScan returns exactly the keys with the prefix, each with the value that Get returns.
  pub lookup-prefix_scan :
      (m : Memtable bt) (p j : Bytes)
      → Dict.lookup j (prefix_scan bt m p) ≡ (if has_prefix j p then get bt m j else none)
  unfolding prefix_scan
  lookup-prefix_scan m p j =
      rw (bt.ascend_ge_lem m.tree (probe p), get-value_at m j)
        (unfold iterate in collect-drop_below j p (bt.ascend m.tree) (bt.ascend-SortedBy m.tree))

  -- After Clear the table is as new to Iterate, Get and the size.
  pub iterate-clear : (m : Memtable bt) → iterate bt (clear bt m) ≡ []
  unfolding iterate clear
  iterate-clear m = bt.ascend-clear m.tree

  pub iterate-new : iterate bt (new_memtable bt) ≡ []
  unfolding iterate new_memtable
  iterate-new = bt.ascend-new

  pub clear-IsSized : (m : Memtable bt) → IsSized (clear bt m)
  unfolding clear iterate
  clear-IsSized m = rw (bt.ascend-clear m.tree)

  pub new-IsSized : IsSized (new_memtable bt)
  unfolding new_memtable iterate
  new-IsSized = rw bt.ascend-new
