-- ===== src/Memtable/Model.antt =====
-- A tree that keeps the documentation of `Btree`: a sorted list of entries with the proof of its
-- order. It shows that the laws can hold, and runs in tests.
use golang_db.Base.{refl, List, []}
use golang_db.Btree.{SortedBy, find, insert, drop_below}
use golang_db.Memtable.{EntryTree, Entry, less}
use golang_db.Memtable.Order.{insert-SortedBy}

abbrev pub SortedList : Type 0
SortedList = (l : List Entry) × SortedBy less l

abbrev pub sorted_lists : EntryTree
sorted_lists = record {
  Tree = SortedList;
  new = ([], tt);
  clear = λ t. ([], tt);
  get = λ t x. find less x t.0;
  replace_or_insert = λ t x. ((insert less x t.0, insert-SortedBy x t.0 t.1), find less x t.0);
  ascend = λ t. t.0;
  ascend_ge = λ t x. drop_below less x t.0;
  ascend-new = refl;
  ascend-clear = λ t. refl;
  ascend-SortedBy = λ t. t.1;
  get_lem = λ t x. refl;
  replaced_lem = λ t x. refl;
  ascend-insert = λ t x. refl;
  ascend_ge_lem = λ t x. refl;
}
