-- ===== src/Db/Database/Reads.antt =====
-- What Get of db/db.go returns behind a Put, whether or not the Put has flushed the memtable.
use golang_db.Base.{ap}
use golang_db.Btree.{SortedBy}
use golang_db.Sstable.Table.{SsFile, write}
use golang_db.Base.{
  ◌≡◌, ◌≢◌, refl, sym, ◌∙◌, none, some, Bool-cases, inl, inr, List, [], ◌∷◌, arith, All, length, ok,
}
use golang_db.Base.Bytes.{Bytes, IsU32, cmp-swap, cmp_refl}
use mathlib.Core.Path.{subst}
use golang_db.Btree.{find}
use golang_db.Wal
use golang_db.Wal.{Wal, works}
use golang_db.Memtable
use golang_db.Memtable.{EntryTree, Entry, less, Memtable, iterate, should_flush}
use golang_db.Memtable.Order.{value_at}
use golang_db.Memtable.Laws.{get-put, get-value_at}
use golang_db.Sstable.Blocks.Decoded.{value_in}
use golang_db.Sstable.Blocks.Layout.{IsKeyed}
use golang_db.Sstable.Table
use golang_db.Sstable.Table.{SsTable, new_file, write_to_file}
use golang_db.Sstable.Table.Write.{IsAligned, get-write}
use golang_db.Db.Database.Writes.{get-clear}
use golang_db.Db.Database.{
  Db, get, put, put_logged, flush_if_full, create_ss_table_and_clear_wal_and_mem_table,
  flush_memtable_to_ss_table,
}

-- The memtable and a reader of blocks find the same value in a list.
value_at-value_in : (key : Bytes) (es : List Entry) → value_at key es ≡ value_in key es
unfolding find
value_at-value_in key [] = refl
value_at-value_in key (e ∷ es) = ground (arith, cmp-swap e.key key, value_at-value_in key es)

module _ (bt : EntryTree) where
  -- What a flush of the memtable relies on: the lists of the table have the same length, the file that
  -- NewFile opens is empty or new, no key is empty, and the file is then shorter than 2 ^ 32 bytes.
  pub record IsFlushable (st : SsTable) (m : Memtable bt) : Type 0 where
    pub aligned : IsAligned st
    pub new : (new_file st).0.contents ≡ []
    pub keyed : All IsKeyed (iterate bt m)
    pub fits :
        IsU32 (length (write_to_file (new_file st).1 (new_file st).0 (iterate bt m)).0.contents)

  new_file-IsAligned : (st : SsTable) → IsAligned st → IsAligned (new_file st).1
  unfolding new_file
  new_file-IsAligned st al = record {
    indexed = al.indexed;
    blocks = al.blocks;
    offsets = al.offsets;
  }

  get-missing :
      (db : Db bt) (key : Bytes)
      → Memtable.get bt db.mem_table key ≡ none
      → get bt db key ≡ Table.get db.ss_table key
  unfolding get
  get-missing db key h = rw (h, get)

  get-held :
      (db : Db bt) (key value : Bytes)
      → Memtable.get bt db.mem_table key ≡ some value
      → get bt db key ≡ ok value
  unfolding get
  get-held db key value h = rw (h, get)

  get-written :
      (st : SsTable) (file : SsFile) (es : List Entry) (key value : Bytes)
      → file.contents ≡ []
      → IsAligned st
      → All IsKeyed es
      → SortedBy less es
      → IsU32 (length (write_to_file st file es).0.contents)
      → value_in key es ≡ some value
      → value ≢ []
      → Table.get (write st file es) key ≡ ok value
  get-written st file es key value empty al keyed sorted small here filled =
      let same : file ≡ record { name = file.name; contents = [] } =
        ap (λ (contents : Bytes). record file { contents = contents }) empty in
      subst
        (λ (f : SsFile).
          IsU32 (length (write_to_file st f es).0.contents)
          → Table.get (write st f es) key ≡ ok value)
        (sym same)
        (λ small'. get-write st file.name es key value al keyed sorted small' here filled) small

  get-flushed :
      (db : Db bt) (key value : Bytes)
      → IsFlushable db.ss_table db.mem_table
      → Memtable.get bt db.mem_table key ≡ some value
      → value ≢ []
      → get bt (create_ss_table_and_clear_wal_and_mem_table bt db) key ≡ ok value
  unfolding create_ss_table_and_clear_wal_and_mem_table flush_memtable_to_ss_table
  get-flushed db key value h here filled =
      get-missing (create_ss_table_and_clear_wal_and_mem_table bt db) key
        (get-clear bt db.mem_table key)
      ∙ get-written (new_file db.ss_table).1 (new_file db.ss_table).0 (iterate bt db.mem_table) key
          value h.new (new_file-IsAligned db.ss_table h.aligned) h.keyed
          (unfold iterate in bt.ascend-SortedBy db.mem_table.tree) h.fits
          (sym (value_at-value_in key (iterate bt db.mem_table))
            ∙ sym (get-value_at bt db.mem_table key)
            ∙ here)
          filled

  -- A value that is not empty is still there behind a flush.
  pub get-flush_if_full :
      (db : Db bt) (key value : Bytes)
      → IsFlushable db.ss_table db.mem_table
      → Memtable.get bt db.mem_table key ≡ some value
      → value ≢ []
      → get bt (flush_if_full bt db) key ≡ ok value
  unfolding flush_if_full
  get-flush_if_full db key value h here filled = elim (Bool-cases (should_flush bt db.mem_table)) [
    | inl full ↦ rw full (get-flushed db key value h here filled)
    | inr other ↦ rw other (get-held db key value here)
  ]

  pub put-works : (db : Db bt) (key value : Bytes) → (put bt works db key value).0 ≡ ok tt
  unfolding put put_logged Wal.write_entry
  put-works db key value = refl

  -- Behind a Put that the disk takes, Get returns the value, where it is not empty, whether the Put has
  -- left it in the memtable or has flushed the memtable to a file. The table of files uses its index and
  -- its lists have the same length, the file that NewFile would open is empty or new, no key of the
  -- memtable is empty, and a file of its entries is shorter than 2 ^ 32 bytes.
  pub get-put_lem :
      (db : Db bt) (key value : Bytes)
      → IsFlushable db.ss_table (Memtable.put bt db.mem_table key value)
      → value ≢ []
      → get bt (put bt works db key value).1 key ≡ ok value
  unfolding put put_logged Wal.write_entry
  get-put_lem db key value h filled =
      get-flush_if_full _ key value h
        (get-put bt db.mem_table key value key ∙ ground (arith, cmp_refl key)) filled
