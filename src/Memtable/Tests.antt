-- ===== src/Memtable/Tests.antt =====
-- Runs of memtable/memtable.go over a tree that is a sorted list.
use golang_db.Base.{◌≡◌, some, [], ◌∷◌}
use golang_db.Base.Bytes.{Bytes, cmp, has_prefix}
use golang_db.Btree.{find, insert}
use golang_db.Base.Dict
use golang_db.Memtable.{Memtable, new_memtable, get, put, prefix_scan}
use golang_db.Memtable.Laws.{IsSized, put-IsSized, lookup-prefix_scan, new-IsSized}
use golang_db.Memtable.Model.{sorted_lists}

abbrev a : Bytes
a = 97 ∷ []

abbrev ab : Bytes
ab = 97 ∷ 98 ∷ []

abbrev value : Bytes
value = 1 ∷ 2 ∷ []

abbrev one_key : Memtable sorted_lists
one_key = put sorted_lists (new_memtable sorted_lists) ab value

put-IsSized_example : IsSized sorted_lists (put sorted_lists one_key ab a)
put-IsSized_example =
    put-IsSized sorted_lists one_key ab a
      (put-IsSized sorted_lists (new_memtable sorted_lists) ab value (new-IsSized sorted_lists))

lookup-prefix_scan_example : Dict.lookup ab (prefix_scan sorted_lists one_key a) ≡ some value
unfolding get put new_memtable cmp find insert has_prefix
lookup-prefix_scan_example = lookup-prefix_scan sorted_lists one_key a ab
